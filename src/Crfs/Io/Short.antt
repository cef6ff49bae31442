-- ===== src/Crfs/Io/Short.antt =====
-- A `crfs_write` that ends before the end of the current block.
use cobalt_rom.Prelude.{
  ℕ, ◌+◌, ◌-◌, ◌%◌, ◌^◌, ◌<◌, ◌≡◌, refl, ◌∙◌, ap, Bool, true, false, ltb, leb, ◌==◌, Bool-cases,
  inl, inr, arith,
}
use cobalt_rom.Crfs.Layout.{Block, copy, fb_data, fblock_data, get_inode, itable_ninodes}
use cobalt_rom.Crfs.State.{Fs, Result, ok}
use cobalt_rom.Crfs.Monad.{M}
use cobalt_rom.Crfs.Inode.{lookup_inode, itable_blocknum}
use cobalt_rom.Crfs.Cache.{read_block}
use cobalt_rom.Crfs.File.{Open, file_magic, on_fs, ignore}
use cobalt_rom.Crfs.Io.{
  from, put_data, store_fblock, write_full, write_rest, update_size, write_data, write,
}

file-on_fs : {A : Type 0} → (m : M Fs A) (o : Open) → (on_fs m o).1.file ≡ o.file
unfolding on_fs
file-on_fs m o = refl

file-update_size : (o : Open) → (update_size o).1.file ≡ o.file
unfolding update_size on_fs ignore lookup_inode
file-update_size o = elim (Bool-cases grown) [ inl e ↦ rw e refl | inr e ↦ rw e refl ]
  where
    grown : Bool
    grown =
        ltb
          (get_inode (read_block (itable_blocknum o.file.inode o.fs) o.fs).0
            (o.file.inode % itable_ninodes)).in_fsize
          o.file.fpos

pub write-write_data :
    (buf : Block) (size : ℕ) (o : Open)
    → o.file.magic ≡ file_magic
    → o.file.curblock == 0 ≡ false
    → o.file.nospc ≡ false
    → write buf size o ≡ write_data buf size o
unfolding write
write-write_data buf size o mg cur spc = rw (known, cur, spc) refl
  where
    known : o.file.magic == file_magic ≡ true
    known = ground (arith, mg)

-- The state before the file's size is looked at.
abbrev pub stored : Block → ℕ → Open → Open
stored buf size o = store_fblock (put_data buf (o.file.fpos % fblock_data) 0 size o)

pub write_data-short :
    (buf : Block) (size : ℕ) (o : Open)
    → leb (fblock_data - o.file.fpos % fblock_data) size ≡ false
    → size == 0 ≡ false
    → write_data buf size o ≡ (ok (0 + size), (update_size (stored buf size o)).1)
unfolding write_data write_full write_rest
write_data-short buf size o big nz = rw (big, nz) refl

-- On a valid file with a current block that has not run out of space, `crfs_write` of at least one
-- byte that ends before the end of the current block takes all the bytes, puts them at the file
-- position within this block, leaves the block's other bytes, and moves the file position on. At a
-- position that is a multiple of a block's share the bytes go to the block's start.
pub write_short :
    (buf : Block) (size : ℕ) (o : Open)
    → o.file.magic ≡ file_magic
    → o.file.curblock == 0 ≡ false
    → o.file.nospc ≡ false
    → 0 < size
    → o.file.fpos % fblock_data + size < fblock_data
    → ((write buf size o).0 ≡ ok size)
      × ((write buf size o).1.file ≡ record o.file {
        fblock = copy o.file.fblock (fb_data + o.file.fpos % fblock_data) (from buf 0) size;
        fpos = (o.file.fpos + size) % 2 ^ 32;
      })
unfolding store_fblock put_data
write_short buf size o mg cur spc pos fits = (
  ap (λ (r : Result ℕ × Open). r.0) whole ∙ ap (λ (n : ℕ). ok n) (omega arith),
  ap (λ (r : Result ℕ × Open). r.1.file) whole ∙ file-update_size (stored buf size o),
)
  where
    whole : write buf size o ≡ (ok (0 + size), (update_size (stored buf size o)).1)
    whole =
        write-write_data buf size o mg cur spc
        ∙ write_data-short buf size o (ground (arith, fits)) (ground (arith, pos))
