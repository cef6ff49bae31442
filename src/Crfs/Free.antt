-- ===== src/Crfs/Free.antt =====
-- `mark_inode`, `unmark_inode`, `rm_file`, `crfs_remove` and `crfs_rmdir` of
-- cobalt_romfs/crfs_func.c. The two walks need not end on a damaged file system: a chain of blocks
-- or a tree of directories may come back to itself. They run on fuel, and `none` is fuel that has
-- run out.
pub mod Chain
pub mod Flush
use cobalt_rom.Prelude.{
  ℕ, zero, suc, ◌+◌, ◌%◌, ◌^◌, Bool, true, false, not, ◌&&◌, ◌||◌, Option, none, some, List, [],
  ◌∷◌, length, ltb, ◌==◌, if◌then◌else◌,
}
use cobalt_rom.Crfs.Layout.{
  Block, get16, put16, get_string, Inode, get_inode, itable_ninodes, dir_nents, de_inode, de_name,
  fb_next, filename_max,
}
use cobalt_rom.Crfs.State.{Fs, Result, ok, err, enoent, eisdir, einval, enametoolong}
use cobalt_rom.Crfs.Monad.{M, pure, throw, run, modify, on_option, ◌>>=◌, ◌>>◌}
use cobalt_rom.Crfs.Freemap.{Freemap, is_set}
use cobalt_rom.Crfs.Freemap
use cobalt_rom.Crfs.Cache.{read_block, write_block}
use cobalt_rom.Crfs.Inode.{itable_blocknum}
use cobalt_rom.Crfs.Dir.{same_name, lookup_dirent, has_dir_mask, namei, is_dir}

-- `freemap_mark` or `freemap_unmark` on one of the two maps.
unfoldable pub on_block : (Freemap → ℕ → Freemap) → ℕ → Fs → Fs
on_block op b s = record s { block_freemap = op s.block_freemap b }

unfoldable pub on_inode : (Freemap → ℕ → Freemap) → ℕ → Fs → Fs
on_inode op inum s = record s { inode_freemap = op s.inode_freemap inum }

-- The loop over the chain of a file's blocks.
unfoldable pub each_fblock : (Freemap → ℕ → Freemap) → ℕ → ℕ → Fs → Option Fs
each_fblock op zero block_index s = if block_index == 0 then some s else none
each_fblock op (suc n) block_index s =
    let (f, s') = read_block block_index (on_block op block_index s) in
    let rest = each_fblock op n (get16 f fb_next) s' in
    elim (block_index == 0) [ true ↦ some s | false ↦ rest ]

abbrev pub then_visit : Option Fs → (Fs → Option Fs) → Option Fs
then_visit none f = none
then_visit (some s) f = f s

-- Block numbers have 16 bits, so a chain that does not come back to itself has fewer blocks.
abbrev pub chain_fuel : ℕ
chain_fuel = 2 ^ 16

-- The inode in its table.
unfoldable pub table_inode : ℕ → Fs → Inode × Fs
table_inode inum s =
    let (it, s') = read_block (itable_blocknum inum s) s in
    (get_inode it (inum % itable_ninodes), s')

-- The loop of `mark_inode` over the entries from `i` on, with the rounds that are left: inodes that
-- are in use already are passed over.
unfoldable pub mark_entries : (ℕ → Fs → Option Fs) → ℕ → ℕ → Block → Fs → Option Fs
mark_entries visit zero i d s = some s
mark_entries visit (suc n) i d s =
    let inum = get16 d (de_inode i) in
    elim (inum == 0 || is_set s.inode_freemap inum) [
      | true ↦ mark_entries visit n (i + 1) d s
      | false ↦ then_visit (visit inum s) (mark_entries visit n (i + 1) d)
    ]

unfoldable pub mark_inode : ℕ → ℕ → Fs → Option Fs
mark_inode zero inum s = none
mark_inode (suc n) inum s =
    let (inode, s1) = table_inode inum (on_inode Freemap.mark inum s) in
    elim (has_dir_mask inode) [
      | true ↦
          let (d, s2) = read_block inode.in_first (on_block Freemap.mark inode.in_first s1) in
          mark_entries (mark_inode n) dir_nents 0 d s2
      | false ↦ each_fblock Freemap.mark chain_fuel inode.in_first s1
    ]

-- The loop of `unmark_inode`, which starts after "." and "..".
unfoldable pub unmark_entries : (ℕ → Fs → Option Fs) → ℕ → ℕ → Block → Fs → Option Fs
unmark_entries visit zero i d s = some s
unmark_entries visit (suc n) i d s =
    let inum = get16 d (de_inode i) in
    elim (inum == 0) [
      | true ↦ unmark_entries visit n (i + 1) d s
      | false ↦ then_visit (visit inum s) (unmark_entries visit n (i + 1) d)
    ]

unfoldable pub unmark_inode : ℕ → ℕ → Fs → Option Fs
unmark_inode zero inum s = none
unmark_inode (suc n) inum s =
    let (inode, s1) = table_inode inum (on_inode Freemap.unmark inum s) in
    elim (has_dir_mask inode) [
      | true ↦
          let (d, s2) = read_block inode.in_first (on_block Freemap.unmark inode.in_first s1) in
          unmark_entries (unmark_inode n) 62 2 d s2
      | false ↦ each_fblock Freemap.unmark chain_fuel inode.in_first s1
    ]

-- The first entry from `i` on with the name, in use or not.
unfoldable pub find_name : ℕ → ℕ → Block → List ℕ → Option ℕ
find_name zero i d name = none
find_name (suc n) i d name = elim (same_name (get_string d (de_name i)) name) [
  | true ↦ some i
  | false ↦ find_name n (i + 1) d name
]

-- The entry loses its inode number and its name.
unfoldable pub clear_dirent : Block → ℕ → Block
clear_dirent d i j = if j == de_name i then 0 else put16 d (de_inode i) 0 j

-- The entry is removed, and the directory's block written where it is.
unfoldable pub remove_dirent : Inode → Block → List ℕ → Fs → Fs
remove_dirent dirnode d name s = elim (find_name dir_nents 0 d name) [
  | some i ↦ write_block dirnode.in_first (clear_dirent d i) s
  | none ↦ s
]

-- `rm_file` up to its last step: the inode number of the removed entry.
unfoldable pub remove_in : Inode → List ℕ → M Fs ℕ
remove_in dirnode name = do
  d ← run (read_block dirnode.in_first)
  on_option (lookup_dirent d name) (throw enoent)
      (λ inum. modify (remove_dirent dirnode d name) >> pure inum)

unfoldable pub remove_entry : List ℕ → Bool → M Fs ℕ
remove_entry path do_dirs = do
  (dirnode, name) ← namei path
  if ltb filename_max (length name) then throw enametoolong else (do
    dir ← is_dir dirnode name
    if dir && not do_dirs
        then throw eisdir
        else if same_name name (b'.' ∷ []) || same_name name (b'.' ∷ b'.' ∷ [])
        then throw einval
        else remove_in dirnode name)

-- The depth of directories that `unmark_inode` and `mark_inode` may reach: inode numbers have 16
-- bits.
abbrev pub tree_fuel : ℕ
tree_fuel = 2 ^ 16

abbrev pub finished : Option Fs → Option (Result (Unit {0}) × Fs)
finished none = none
finished (some s) = some (ok tt, s)

abbrev pub free_removed : Result ℕ × Fs → Option (Result (Unit {0}) × Fs)
free_removed (ok inum, s) = finished (unmark_inode tree_fuel inum s)
free_removed (err e, s) = some (err e, s)

unfoldable pub rm_file : List ℕ → Bool → Fs → Option (Result (Unit {0}) × Fs)
rm_file path do_dirs s = free_removed (remove_entry path do_dirs s)

unfoldable pub remove : List ℕ → Fs → Option (Result (Unit {0}) × Fs)
remove path = rm_file path false

unfoldable pub rmdir : List ℕ → Fs → Option (Result (Unit {0}) × Fs)
rmdir path = rm_file path true
