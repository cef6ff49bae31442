-- ===== src/Crfs/Runs.antt =====
-- Runs of the functions of cobalt_romfs/crfs_func.c, and the theorems on inodes, directories and
-- `crfs_mkfs` at the example file system.
use cobalt_rom.Prelude.{ℕ, ◌≡◌, refl, ap, false, some, none, List, [], ◌∷◌, arith}
use cobalt_rom.Crfs.Layout.{
  zeros, get16, put16, put32, put_string, get_string, string_from, de_inode,
}
use cobalt_rom.Crfs.Layout.Fields.{Fits}
use cobalt_rom.Crfs.State.{Fs, Result, ok}
use cobalt_rom.Crfs.Cache.{cache_flush, next_super, read_block, find, cache_add, block_is_dirty}
use cobalt_rom.Crfs.Freemap.{next, scan, first_clear, init, mark, unmark}
use cobalt_rom.Crfs.Inode.{
  lookup_inode, write_inode, itable_for_write, new_itable, old_itable, copied_itable, alloc_block,
  next_block, itable_blocknum, itable_slot,
}
use cobalt_rom.Crfs.Inode.Lookup.{lookup_inode-write_inode}
use cobalt_rom.Crfs.Create.{empty_file, new_directory, populate}
use cobalt_rom.Crfs.Create.Found.{IsDirectory, lookup_dirent-populate}
use cobalt_rom.Crfs.Dir.{lookup_dirent, find_dirent, same_name}
use cobalt_rom.Crfs.Cache.View.{view}
use cobalt_rom.Crfs.Free.{on_block, on_inode, each_fblock}
use cobalt_rom.Crfs.Free.Chain.{IsChain, chain_blocks, apply_all, each_fblock-IsChain}
use cobalt_rom.Crfs.Free.Flush.{freed-cache_flush}
use cobalt_rom.Crfs.Freemap.Bit.{IsValid, busy}
use cobalt_rom.Crfs.Freemap.Valid.{init-IsValid, mark-IsValid}
use cobalt_rom.Crfs.Format.{mkfs}
use cobalt_rom.Crfs.Format.Remount.{last_super, choose_super-mkfs}
use cobalt_rom.Crfs.Mount.{choose_super}
use cobalt_rom.Crfs.File.{Open, file_magic}
use cobalt_rom.Crfs.Example.{fs, fs-IsCoherent, blocks-IsValid}

choose_super-mkfs_example :
    (choose_super (mkfs 65536 fs)).0 ≡ some (0, next_super (last_super 65536))
choose_super-mkfs_example = choose_super-mkfs 65536 fs fs-IsCoherent

empty_file-Fits : Fits (empty_file 7)
empty_file-Fits = record {
  inode_fits = omega arith;
  first_fits = omega arith;
  last_fits = omega arith;
  fsize_fits = omega arith;
  fmask_fits = omega arith;
}

write_inode-run : (write_inode (empty_file 7) fs).0 ≡ ok tt
unfolding write_inode itable_for_write new_itable old_itable copied_itable alloc_block next_block
    itable_blocknum itable_slot get16 put16 put32 put_string next_super read_block find cache_add
    block_is_dirty next scan first_clear init mark
write_inode-run = refl

lookup_inode-write_inode_example :
    (lookup_inode 7 (write_inode (empty_file 7) fs).1).0 ≡ ok (empty_file 7)
lookup_inode-write_inode_example =
    lookup_inode-write_inode (empty_file 7) fs (write_inode (empty_file 7) fs).1 empty_file-Fits
      (ap (λ (r : Result (Unit {0})). (r, (write_inode (empty_file 7) fs).1)) write_inode-run)

new_directory-IsDirectory : IsDirectory (new_directory 1 1)
unfolding new_directory put_string put16
new_directory-IsDirectory k h = ground arith

-- "ab"
abbrev name : List ℕ
name = b'a' ∷ b'b' ∷ []

lookup_dirent-run : lookup_dirent (new_directory 1 1) name ≡ none
unfolding lookup_dirent find_dirent same_name get_string string_from new_directory put_string put16
    get16
lookup_dirent-run = refl

lookup_dirent-populate_example : lookup_dirent (populate (new_directory 1 1) 2 7 name) name ≡ some 7
lookup_dirent-populate_example =
    lookup_dirent-populate (new_directory 1 1) 2 7 name new_directory-IsDirectory (omega arith)
      (omega arith) (omega arith) (omega arith) (refl, (refl, tt)) lookup_dirent-run

third_entry-unused : get16 (new_directory 1 1) (de_inode 2) ≡ 0
unfolding new_directory put_string put16 get16
third_entry-unused = refl

different : same_name (b'.' ∷ []) name ≡ false
unfolding same_name
different = refl

-- Block 5 alone is a chain.
one_block : IsChain 1 fs 5
unfolding IsChain find get16
one_block = (refl, refl)

each_fblock-IsChain_example :
    (s' : Fs) × (each_fblock mark 3 5 fs ≡ some s')
    × (s'.block_freemap ≡ apply_all mark fs.block_freemap (chain_blocks 1 fs 5))
    × ((j : ℕ) → view s' j ≡ view fs j)
each_fblock-IsChain_example = each_fblock-IsChain mark 1 3 5 fs one_block (omega arith)

inodes-IsValid : IsValid fs.inode_freemap
unfolding init mark
inodes-IsValid =
    mark-IsValid (mark (init 32) 0) 1 (mark-IsValid (init 32) 0 (init-IsValid 32) (omega arith))
      (omega arith)

freed-cache_flush_example :
    (busy (cache_flush (on_block unmark 3 (on_inode unmark 1 fs))).block_freemap 3 ≡ 0)
    × (busy (cache_flush (on_block unmark 3 (on_inode unmark 1 fs))).inode_freemap 1 ≡ 1)
unfolding init mark
freed-cache_flush_example =
    freed-cache_flush fs 3 1 blocks-IsValid inodes-IsValid (omega arith) (omega arith) refl

-- An open file with two full blocks behind it, of which block 5 is the last.
abbrev full_blocks : Open
full_blocks = record {
  fs = fs;
  file = record {
    magic = file_magic;
    inode = 7;
    curblock = 5;
    fpos = 8160;
    nospc = false;
    fblock = zeros;
  };
}
