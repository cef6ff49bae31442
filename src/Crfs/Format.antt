-- ===== src/Crfs/Format.antt =====
-- `crfs_mkfs` of cobalt_romfs/crfs_func.c.
pub mod Remount
use cobalt_rom.Prelude.{ℕ, zero, suc, ◌+◌, ◌-◌, bit_and, some, ◌==◌, if◌then◌else◌}
use cobalt_rom.Crfs.Layout.{
  Block, zeros, block_size, put16, put32, put_string, put_inode, nsblocks, sb_checksum, sb_blockver,
  sb_fssize, sb_root, sb_vtable,
}
use cobalt_rom.Crfs.State.{Fs}
use cobalt_rom.Crfs.Cache.{write_block, checksum, cache_flush, sb_blocknum}
use cobalt_rom.Crfs.Create.{dir_inode, new_directory}
use cobalt_rom.Crfs.Mount.{magic}

-- `size & ~CRFS_BLOCK_SIZE` clears one bit.
unfoldable pub masked_size : ℕ → ℕ
masked_size size = if bit_and size block_size == 0 then size else size - block_size

-- The super block but for its version and its check sum, which are 0.
unfoldable pub blank_super : ℕ → Block
blank_super size =
    put16 (put16 (put32 (put_string zeros 0 magic) sb_fssize (masked_size size)) sb_root 1)
      (sb_vtable 0) 2

-- One round's super block, from the one of the round before.
unfoldable pub numbered_super : Block → ℕ → Block
numbered_super sb i = let sb' = put32 sb sb_blockver i in put32 sb' sb_checksum (checksum sb')

-- The loop over the two super blocks, with the rounds that are left. It ends with the last one.
unfoldable pub write_supers : ℕ → ℕ → Block → Fs → Block × Fs
write_supers zero i sb s = (sb, s)
write_supers (suc n) i sb s =
    let sb' = numbered_super sb i in write_supers n (i + 1) sb' (write_block (sb_blocknum i) sb' s)

-- `crfs_mkfs` up to its `cache_flush`: the file system in the cache.
unfoldable pub format : ℕ → Fs → Fs
format size s =
    let (sb, s1) = write_supers nsblocks 0 (blank_super size) s in
    write_block 3 (new_directory 1 1) (
      write_block 2 (put_inode zeros 1 (dir_inode 1 3))
        (record s1 { which_super = some (nsblocks - 1); super_block = sb }))

unfoldable pub mkfs : ℕ → Fs → Fs
mkfs size s = cache_flush (format size s)
