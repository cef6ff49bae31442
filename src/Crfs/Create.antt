-- ===== src/Crfs/Create.antt =====
-- `crfs_create` and `crfs_mkdir` of cobalt_romfs/crfs_func.c.
pub mod Found
pub mod Others
use cobalt_rom.Prelude.{
  ℕ, zero, suc, ◌+◌, ◌-◌, ◌%◌, ◌^◌, true, false, Option, none, some, List, [], ◌∷◌, length, ltb,
  leb, ◌&&◌, get_or, ◌==◌, if◌then◌else◌,
}
use cobalt_rom.Crfs.Layout.{
  Block, zeros, get16, put16, put_string, Inode, fmask_file, fmask_dir, filename_max, dir_nents,
  de_inode, de_name,
}
use cobalt_rom.Crfs.State.{Fs, eisdir, eexist, enametoolong, enospc}
use cobalt_rom.Crfs.Monad.{M, pure, throw, gets, run, modify, on_option, ◌>>=◌, ◌>>◌}
use cobalt_rom.Crfs.Cache.{read_block, write_block, block_is_dirty}
use cobalt_rom.Crfs.Inode.{next_block, next_inode, unmark_block, write_inode}
use cobalt_rom.Crfs.Dir.{lookup_dirent, namei, is_dir}

-- An `int` result of `freemap_next` stored in 16 bits, -1 with the rest: neither function tests it.
unfoldable pub as_uint16 : Option ℕ → ℕ
as_uint16 none = 2 ^ 16 - 1
as_uint16 (some b) = b % 2 ^ 16

-- The first entry from `i` on that is not in use, with the rounds that are left.
unfoldable pub find_free : ℕ → ℕ → Block → Option ℕ
find_free zero i d = none
find_free (suc n) i d = elim (get16 d (de_inode i) == 0) [
  | true ↦ some i
  | false ↦ find_free n (i + 1) d
]

-- The first characters of a name.
unfoldable pub cut : ℕ → List ℕ → List ℕ
cut zero s = []
cut (suc n) [] = []
cut (suc n) (c ∷ s) = c ∷ cut n s

-- `d_entries[i]` takes an inode number and a name, which the C library's `strncpy` cuts at
-- CRFS_FILENAME_MAX characters and fills up with NULs; a last NUL follows. (The ROM's own `strncpy`
-- in x86/common/string.c writes one NUL and leaves the bytes after it.)
unfoldable pub populate : Block → ℕ → ℕ → List ℕ → Block
populate d i inum name j =
    if leb (de_name i) j && leb j (de_name i + filename_max)
    then get_or (cut filename_max name) (j - de_name i) 0
    else put16 d (de_inode i) inum j

-- The phased commit of the directory's block: its number for the write. A clean block is freed, and
-- the directory's inode goes to a new one.
unfoldable pub move_dir : Inode → M Fs ℕ
move_dir dirnode = do
  o ← run next_block
  modify (unmark_block dirnode.in_first)
  let dirblock2 = as_uint16 o
  write_inode (record dirnode { in_first = dirblock2; in_last = dirblock2 })
  pure dirblock2

unfoldable pub dirblock_for_write : Inode → M Fs ℕ
dirblock_for_write dirnode = do
  dirty ← gets (block_is_dirty dirnode.in_first)
  if dirty then pure dirnode.in_first else move_dir dirnode

-- The end of both functions: enter the new inode in the directory.
unfoldable pub add_dirent : Inode → Block → ℕ → ℕ → List ℕ → M Fs (Unit {0})
add_dirent dirnode d i inum name = do
  dirblock ← dirblock_for_write dirnode
  modify (write_block dirblock (populate d i inum name))

abbrev pub empty_file : ℕ → Inode
empty_file inum = record {
  in_inode = inum;
  in_first = 0;
  in_last = 0;
  in_fsize = 0;
  in_fmask = fmask_file;
}

unfoldable pub create_at : Inode → Block → ℕ → List ℕ → M Fs (Unit {0})
create_at dirnode d i name = do
  o ← run next_inode
  let inum = as_uint16 o
  write_inode (empty_file inum)
  add_dirent dirnode d i inum name

unfoldable pub create_in : Inode → List ℕ → M Fs (Unit {0})
create_in dirnode name = do
  d ← run (read_block dirnode.in_first)
  on_option (lookup_dirent d name)
      (on_option (find_free dir_nents 0 d) (throw enospc) (λ i. create_at dirnode d i name))
      (λ inum. throw eexist)

unfoldable pub create : List ℕ → M Fs (Unit {0})
create path = do
  (dirnode, name) ← namei path
  if ltb filename_max (length name)
      then throw enametoolong
      else (do dir ← is_dir dirnode name; if dir then throw eisdir else create_in dirnode name)

abbrev pub dir_inode : ℕ → ℕ → Inode
dir_inode inum blocknum = record {
  in_inode = inum;
  in_first = blocknum;
  in_last = blocknum;
  in_fsize = 0;
  in_fmask = fmask_dir;
}

-- A directory with the entries "." and "..".
unfoldable pub new_directory : ℕ → ℕ → Block
new_directory inum parent =
    put_string
      (put16 (put_string (put16 zeros (de_inode 0) inum) (de_name 0) (b'.' ∷ [])) (de_inode 1)
        parent)
      (de_name 1) (b'.' ∷ b'.' ∷ [])

unfoldable pub mkdir_at : Inode → Block → ℕ → List ℕ → M Fs (Unit {0})
mkdir_at dirnode d i name = do
  o ← run next_inode
  p ← run next_block
  let inum = as_uint16 o
  let blocknum = as_uint16 p
  modify (write_block blocknum (new_directory inum dirnode.in_inode))
  write_inode (dir_inode inum blocknum)
  add_dirent dirnode d i inum name

unfoldable pub mkdir_in : Inode → List ℕ → M Fs (Unit {0})
mkdir_in dirnode name = do
  d ← run (read_block dirnode.in_first)
  on_option (lookup_dirent d name)
      (on_option (find_free dir_nents 0 d) (throw enospc) (λ i. mkdir_at dirnode d i name))
      (λ inum. throw eexist)

unfoldable pub mkdir : List ℕ → M Fs (Unit {0})
mkdir path = do
  (dirnode, name) ← namei path
  if ltb filename_max (length name) then throw enametoolong else mkdir_in dirnode name
