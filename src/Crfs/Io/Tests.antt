-- ===== src/Crfs/Io/Tests.antt =====
-- Reads and writes of an open file in a small file system.
use cobalt_rom.Prelude.{
  ℕ, zero, suc, ◌+◌, ◌≡◌, refl, true, false, some, [], ◌∷◌, ltb, ◌==◌, if◌then◌else◌, arith,
}
use cobalt_rom.Crfs.Layout.{
  Block, Inode, zeros, put16, get16, put32, get32, copy, get_inode, put_inode, sb_vtable,
}
use cobalt_rom.Crfs.State.{Fs, ok}
use cobalt_rom.Crfs.Cache.{find, block_is_dirty}
use cobalt_rom.Crfs.Cache.View.{view}
use cobalt_rom.Crfs.Inode.{itable_blocknum, itable_slot}
use cobalt_rom.Crfs.Create.{dir_inode}
use cobalt_rom.Crfs.Example.{fs}
use cobalt_rom.Crfs.File.{File, Open, file_magic}
use cobalt_rom.Crfs.Io.{read, write}
use cobalt_rom.Crfs.Io.Content.{IsRead, HasBlocks}
use cobalt_rom.Crfs.Io.Whole.{file_size, readable, read-IsRead}
use cobalt_rom.Crfs.Freemap
use cobalt_rom.Crfs.Layout.Fields.{Fits, get_inode-put_inode_self}
use cobalt_rom.Crfs.Io.First.{HasInode, empty_file}
use cobalt_rom.Crfs.Io.Fresh.{open_again, read-open_again-write}

-- Inode 5, a file of 100 bytes in block 7, in the table of block 2.
abbrev small_file : Inode
small_file = record (dir_inode 5 7) { in_fsize = 100 }

abbrev table : Block
table = put_inode zeros 5 small_file

abbrev with_file : Fs
with_file = record fs {
  disk = λ j. if j == 2 then table else λ k. 42;
  super_block = put16 zeros (sb_vtable 0) 2;
}

abbrev opened : Open
opened = record {
  fs = with_file;
  file = record {
    magic = file_magic;
    inode = 5;
    curblock = 7;
    fpos = 3;
    nospc = false;
    fblock = λ k. 42;
  };
}

opened_size : file_size opened ≡ 100
unfolding itable_blocknum get16 put16 find get_inode put_inode get32 put32 copy itable_slot
opened_size = refl

readable-opened : readable 20 opened ≡ 20
readable-opened = let all : ltb (file_size opened) 23 ≡ false = rw opened_size refl in rw all refl

opened_loaded : opened.file.fblock ≡ view opened.fs opened.file.curblock
unfolding find
opened_loaded = refl

opened_blocks : HasBlocks opened.fs opened.file.curblock (3 + readable 20 opened)
opened_blocks zero lt = refl
opened_blocks (suc q) lt = absurd (omega (arith, lt, readable-opened))

read-IsRead_example :
    (out : Block) × ((read zeros 20 opened).0 ≡ ok (readable 20 opened, out))
    × IsRead with_file 7 3 (readable 20 opened) zeros out
read-IsRead_example =
    read-IsRead 20 zeros opened refl refl opened_loaded (omega (arith, opened_size)) (omega arith)
      opened_blocks

-- The same file system with an empty file, inode 5, in a changed table.
abbrev new_file : Inode
new_file = record small_file { in_first = 0; in_last = 0; in_fsize = 0 }

abbrev with_new : Fs
with_new = record with_file {
  cache = record { dt_blockaddr = 2; dt_dirty = true; dt_data = put_inode zeros 5 new_file } ∷ [];
}

new_file-Fits : Fits new_file
new_file-Fits = record {
  inode_fits = omega arith;
  first_fits = omega arith;
  last_fits = omega arith;
  fsize_fits = omega arith;
  fmask_fits = omega arith;
}

with_new-HasInode : HasInode 5 2 new_file with_new
unfolding itable_blocknum get16 put16 find itable_slot block_is_dirty
with_new-HasInode = (refl, refl, refl, get_inode-put_inode_self zeros 5 new_file new_file-Fits)

with_new-next :
    Freemap.next with_new.block_freemap ≡ (some 1, (Freemap.next with_new.block_freemap).1)
unfolding Freemap.init Freemap.mark Freemap.next Freemap.first_clear
with_new-next = refl

read-open_again-write_example :
    (f : File) × (loaded : Fs) × (out : Block) × (open_again 5 with_new
      ≡ (ok (empty_file 5), with_new))
    × ((write (λ k. 9) 20 (record { fs = with_new; file = empty_file 5 })).0 ≡ ok 20)
    × (open_again 5 (write (λ k. 9) 20 (record { fs = with_new; file = empty_file 5 })).1.fs
        ≡ (ok f, loaded))
    × ((read zeros 20 (record { fs = loaded; file = f })).0 ≡ ok (20, out))
    × ((k : ℕ) → out k ≡ (if ltb k 20 then 9 else zeros k))
read-open_again-write_example =
    read-open_again-write 5 2 1 20 new_file (Freemap.next with_new.block_freemap).1 with_new
      (λ k. 9) with_new-HasInode refl new_file-Fits refl refl with_new-next refl (omega arith) refl
      (omega arith) (omega arith) zeros
