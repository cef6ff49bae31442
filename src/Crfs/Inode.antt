-- ===== src/Crfs/Inode.antt =====
-- `crfs_lookup_inode` and `crfs_write_inode` of cobalt_romfs/crfs_func.c.
pub mod Lookup
use cobalt_rom.Prelude.{ℕ, ◌/◌, ◌%◌, ◌^◌, Option, ◌==◌, if◌then◌else◌}
use cobalt_rom.Crfs.Layout.{
  Block, zeros, get16, put16, Inode, get_inode, put_inode, itable_ninodes, sb_vtable,
}
use cobalt_rom.Crfs.State.{Fs, enospc}
use cobalt_rom.Crfs.Monad.{M, pure, throw, gets, run, modify, on_option, ◌>>=◌, ◌>>◌}
use cobalt_rom.Crfs.Freemap
use cobalt_rom.Crfs.Cache.{read_block, write_block, block_is_dirty}

-- `freemap_next(block_freemap)`
unfoldable pub next_block : Fs → Option ℕ × Fs
next_block s = let (o, m) = Freemap.next s.block_freemap in (o, record s { block_freemap = m })

-- `freemap_next(inode_freemap)`
unfoldable pub next_inode : Fs → Option ℕ × Fs
next_inode s = let (o, m) = Freemap.next s.inode_freemap in (o, record s { inode_freemap = m })

-- A block number taken from the freemap and stored in a `block_id_t`, or -ENOSPC.
unfoldable pub alloc_block : M Fs ℕ
alloc_block = do o ← run next_block; on_option o (throw enospc) (λ b. pure (b % 2 ^ 16))

-- `freemap_unmark(block_freemap, b)`
unfoldable pub unmark_block : ℕ → Fs → Fs
unmark_block b s = record s { block_freemap = Freemap.unmark s.block_freemap b }

-- Where the super block names the inode table's block: ITABLE_BLOCKNUM(inum).
unfoldable pub itable_slot : ℕ → ℕ
itable_slot inum = sb_vtable (inum / itable_ninodes)

unfoldable pub itable_blocknum : ℕ → Fs → ℕ
itable_blocknum inum s = get16 s.super_block (itable_slot inum)

unfoldable pub set_itable_blocknum : ℕ → ℕ → Fs → Fs
set_itable_blocknum inum b s = record s { super_block = put16 s.super_block (itable_slot inum) b }

unfoldable pub lookup_inode : ℕ → M Fs Inode
lookup_inode inum = do
  block_index ← gets (itable_blocknum inum)
  it ← run (read_block block_index)
  pure (get_inode it (inum % itable_ninodes))

-- The block to write the inode table to, and the table's content before the write: a new table, a
-- table that is already dirty, or a copy of a clean table in a new block.
unfoldable pub new_itable : ℕ → M Fs (ℕ × Block)
new_itable inum = do
  block_index ← alloc_block
  modify (set_itable_blocknum inum block_index)
  pure (block_index, zeros)

unfoldable pub copied_itable : ℕ → ℕ → Block → M Fs (ℕ × Block)
copied_itable inum old it = do
  block_index ← alloc_block
  modify (unmark_block old)
  modify (set_itable_blocknum inum block_index)
  pure (block_index, it)

unfoldable pub old_itable : ℕ → ℕ → M Fs (ℕ × Block)
old_itable inum block_index = do
  it ← run (read_block block_index)
  dirty ← gets (block_is_dirty block_index)
  if dirty then pure (block_index, it) else copied_itable inum block_index it

unfoldable pub itable_for_write : ℕ → M Fs (ℕ × Block)
itable_for_write inum = do
  block_index ← gets (itable_blocknum inum)
  if block_index == 0 then new_itable inum else old_itable inum block_index

unfoldable pub write_inode : Inode → M Fs (Unit {0})
write_inode inode = do
  (block_index, it) ← itable_for_write inode.in_inode
  modify (write_block block_index (put_inode it (inode.in_inode % itable_ninodes) inode))
