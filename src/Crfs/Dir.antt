-- ===== src/Crfs/Dir.antt =====
-- Directories and paths of cobalt_romfs/crfs_func.c: `crfs_lookup_dirent`, `crfs_namei`,
-- `inode_lookup_from_namei` and `is_dir`. A name is the list of its characters, without the NUL.
pub mod Walk
use cobalt_rom.Prelude.{
  ℕ, zero, suc, ◌+◌, bit_and, Bool, true, false, not, ◌&&◌, ◌||◌, Option, none, some, List, [], ◌∷◌,
  ◌++◌, length, ltb, ◌==◌, if◌then◌else◌,
}
use cobalt_rom.Crfs.Layout.{
  Block, get16, get_string, Inode, fmask_dir, filename_max, dir_nents, de_inode, de_name, sb_root,
}
use cobalt_rom.Crfs.State.{Fs, enoent, enotdir}
use cobalt_rom.Crfs.Monad.{M, pure, throw, gets, run, on_option, ◌>>=◌}
use cobalt_rom.Crfs.Cache.{read_block}
use cobalt_rom.Crfs.Inode.{lookup_inode}

abbrev pub slash : ℕ
slash = b'/'

-- `!strcmp(s, t)`
unfoldable pub same_name : List ℕ → List ℕ → Bool
same_name [] [] = true
same_name [] (d ∷ t) = false
same_name (c ∷ s) [] = false
same_name (c ∷ s) (d ∷ t) = (c == d) && same_name s t

-- The search of `crfs_lookup_dirent` from entry `i`, with the rounds that are left.
unfoldable pub find_dirent : ℕ → ℕ → Block → List ℕ → Option ℕ
find_dirent zero i dir name = none
find_dirent (suc n) i dir name =
    let here = same_name name (get_string dir (de_name i)) && not (get16 dir (de_inode i) == 0) in
    elim here [ true ↦ some i | false ↦ find_dirent n (i + 1) dir name ]

-- The inode number of the entry; `none` is -1.
unfoldable pub lookup_dirent : Block → List ℕ → Option ℕ
unfolding find_dirent
lookup_dirent dir name =
    if ltb filename_max (length name) then none else elim (find_dirent dir_nents 0 dir name) [
      | none ↦ none
      | some i ↦ some (get16 dir (de_inode i))
    ]

unfoldable pub has_dir_mask : Inode → Bool
has_dir_mask inode = not (bit_and inode.in_fmask fmask_dir == 0)

-- One directory element of a path: its inode number, or -ENOENT.
unfoldable pub path_element : Inode → List ℕ → M Fs ℕ
path_element dir name = do
  d ← run (read_block dir.in_first)
  on_option (lookup_dirent d name) (throw enoent) pure

unfoldable pub enter : ℕ → M Fs Inode
enter inum = do
  inode ← lookup_inode inum
  if inode.in_inode == 0 || not (has_dir_mask inode) then throw enotdir else pure inode

-- The loop of `crfs_namei`: `name` is the text from `str_start` to `str_end`, `rest` the text from
-- `str_end` on, `dir` the directory reached so far.
unfoldable pub walk : Inode → List ℕ → List ℕ → M Fs (Inode × List ℕ)
walk dir name [] = pure (dir, name)
walk dir name (c ∷ rest) =
    let longer = walk dir (name ++ c ∷ []) rest in
    let skipped = walk dir [] rest in
    let last = path_element dir name >>= λ _. pure (dir, name) in
    let below = path_element dir name >>= λ inum. enter inum >>= λ inode. walk inode [] rest in
    elim (c == slash) [
      | false ↦ longer
      | true ↦ elim name [ [] ↦ skipped | n ∷ ns ↦ elim rest [ [] ↦ last | r ∷ rs ↦ below ] ]
    ]

-- The directory and the last element of a path. The NUL that the C code stores over a slash at the
-- path's end is in the result's second part alone.
unfoldable pub namei : List ℕ → M Fs (Inode × List ℕ)
unfolding walk
namei [] = do pwd ← gets (λ s. s.pwd); inode ← lookup_inode pwd; walk inode [] []
namei (c ∷ rest) =
    if c == slash
    then (do
      root ← gets (λ s. get16 s.super_block sb_root)
      inode ← lookup_inode root
      walk inode [] rest)
    else (do pwd ← gets (λ s. s.pwd); inode ← lookup_inode pwd; walk inode [] (c ∷ rest))

-- The result for a name that is not there: an inode with no number and no mask, whose other fields
-- the C code leaves unset.
abbrev pub no_inode : Inode
no_inode = record { in_inode = 0; in_first = 0; in_last = 0; in_fsize = 0; in_fmask = 0 }

unfoldable pub inode_lookup_from_namei : Inode → List ℕ → M Fs Inode
inode_lookup_from_namei dirnode [] = pure dirnode
inode_lookup_from_namei dirnode (c ∷ name) = do
  d ← run (read_block dirnode.in_first)
  on_option (lookup_dirent d (c ∷ name)) (pure no_inode) lookup_inode

unfoldable pub is_dir : Inode → List ℕ → M Fs Bool
is_dir dirnode name = do inode ← inode_lookup_from_namei dirnode name; pure (has_dir_mask inode)
