-- ===== src/Crfs/Listing.antt =====
-- `crfs_opendir`, `crfs_readdir`, `crfs_closedir` and `crfs_stat` of cobalt_romfs/crfs_func.c.
use cobalt_rom.Prelude.{
  ℕ, zero, suc, ◌+◌, ◌-◌, true, false, not, Option, none, some, List, length, ltb, leb, ◌==◌,
  if◌then◌else◌,
}
use cobalt_rom.Crfs.Layout.{
  Block, get16, get_string, Inode, dir_nents, de_inode, de_name, filename_max,
}
use cobalt_rom.Crfs.State.{Fs, Result, ok, err, ebadf, enoent, enotdir, enametoolong}
use cobalt_rom.Crfs.Monad.{M, pure, throw, run, on_option, ◌>>=◌}
use cobalt_rom.Crfs.Cache.{read_block}
use cobalt_rom.Crfs.Inode.{lookup_inode}
use cobalt_rom.Crfs.Dir.{lookup_dirent, has_dir_mask, namei, inode_lookup_from_namei}

-- CO_DIR_MAGIC
abbrev pub dir_magic : ℕ
dir_magic = 0x00c0d100

-- `crfs_dirent`
pub record Dirent : Type 0 where
  pub number : ℕ
  pub name : List ℕ

-- `CO_DIR`, but for the entry that was read last, which `read_dir` returns.
pub record Dir : Type 0 where
  pub magic : ℕ
  pub inode : ℕ
  pub pos : ℕ

-- The allocation is taken to succeed.
unfoldable pub open_dir : List ℕ → M Fs Dir
open_dir path = do
  (dirnode, name) ← namei path
  if ltb filename_max (length name) then throw enametoolong else (do
    inode ← inode_lookup_from_namei dirnode name
    if has_dir_mask inode
        then pure (record { magic = dir_magic; inode = inode.in_inode; pos = 0 })
        else throw enotdir)

-- The loop of `crfs_readdir`: the first entry from `pos` on that is in use, else the number of
-- entries.
unfoldable pub next_used : ℕ → ℕ → Block → ℕ
next_used zero pos d = pos
next_used (suc n) pos d = elim (get16 d (de_inode pos) == 0) [
  | true ↦ next_used n (pos + 1) d
  | false ↦ pos
]

unfoldable pub get_dirent : Block → ℕ → Dirent
get_dirent d i = record { number = get16 d (de_inode i); name = get_string d (de_name i) }

-- The result of `crfs_readdir` and the CO_DIR after it.
unfoldable pub read_entry : Block → Dir → Option Dirent × Dir
read_entry d dir =
    let pos = next_used (dir_nents - dir.pos) dir.pos d in
    if leb dir_nents pos
    then (none, record dir { pos = pos })
    else (some (get_dirent d pos), record dir { pos = pos + 1 })

-- `none` is NULL at the directory's end.
unfoldable pub read_dir : Dir → M Fs (Option Dirent × Dir)
read_dir dir = if not (dir.magic == dir_magic) then throw ebadf else (do
  inode ← lookup_inode dir.inode
  d ← run (read_block inode.in_first)
  pure (read_entry d dir))

unfoldable pub close_dir : Dir → Result Dir
close_dir dir = if dir.magic == dir_magic then ok (record dir { magic = 0 }) else err ebadf

-- `struct crfs_stat`
pub record Stat : Type 0 where
  pub st_ino : ℕ
  pub st_fmask : ℕ
  pub st_size : ℕ

unfoldable pub stat_inode : ℕ → M Fs Stat
stat_inode inum = do
  inode ← lookup_inode inum
  pure (record { st_ino = inum; st_fmask = inode.in_fmask; st_size = inode.in_fsize })

unfoldable pub stat_in : Inode → List ℕ → M Fs Stat
stat_in dirnode name = do
  d ← run (read_block dirnode.in_first)
  on_option (lookup_dirent d name) (throw enoent) stat_inode

unfoldable pub stat : List ℕ → M Fs Stat
stat path = do
  (dirnode, name) ← namei path
  if ltb filename_max (length name) then throw enametoolong else stat_in dirnode name
