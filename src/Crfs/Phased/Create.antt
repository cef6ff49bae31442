-- ===== src/Crfs/Phased/Create.antt =====
-- `crfs_create` and `crfs_mkdir` keep the commit phased.
use cobalt_rom.Prelude.{ℕ, ◌≡◌, Bool, true, List, length, ltb}
use cobalt_rom.Crfs.Layout.{Block, Inode, filename_max, dir_nents}
use cobalt_rom.Crfs.State.{Fs, eexist, eisdir, enospc, enametoolong}
use cobalt_rom.Crfs.Cache.{read_block, write_block, block_is_dirty}
use cobalt_rom.Crfs.Monad.{M, pure, throw, gets, run, modify, on_option, ◌>>=◌, ◌>>◌}
use cobalt_rom.Crfs.Inode.{next_block, next_inode, unmark_block, write_inode}
use cobalt_rom.Crfs.Dir.{lookup_dirent, namei, is_dir}
use cobalt_rom.Crfs.Create.{
  as_uint16, find_free, populate, move_dir, dirblock_for_write, add_dirent, create_at, create_in,
  create, empty_file, dir_inode, new_directory, mkdir_at, mkdir_in, mkdir,
}
use cobalt_rom.Crfs.Phased.{Keeps, Writable}
use cobalt_rom.Crfs.Phased.Rules.{
  Keeps-pure, Keeps-throw, Keeps-bind, Keeps-then, Keeps-if, Keeps-option, Keeps-block_is_dirty,
  Keeps-read_block, Keeps-write_block, Keeps-next_block, Keeps-next_inode, Keeps-unmark_block,
}
use cobalt_rom.Crfs.Phased.Inode.{Keeps-write_inode, Keeps-namei, Keeps-is_dir}

module _ (c : ℕ → Bool) (start : Fs) where
  Keeps-move_dir : (dirnode : Inode) → Keeps c start (Writable c) (move_dir dirnode)
  unfolding move_dir
  Keeps-move_dir dirnode =
      Keeps-bind c start (λ o. Writable c (as_uint16 o)) (run next_block) _
        (Keeps-next_block c start)
        (λ o w.
          Keeps-then c start (modify (unmark_block dirnode.in_first)) _
            (Keeps-unmark_block c start dirnode.in_first)
            (λ u.
              Keeps-then c start
                (write_inode (record dirnode { in_first = as_uint16 o; in_last = as_uint16 o })) _
                (Keeps-write_inode c start _) (λ u'. Keeps-pure c start (as_uint16 o) w)))

  Keeps-dirblock_for_write :
      (dirnode : Inode) → Keeps c start (Writable c) (dirblock_for_write dirnode)
  unfolding dirblock_for_write
  Keeps-dirblock_for_write dirnode =
      Keeps-bind c start (λ d. d ≡ true → Writable c dirnode.in_first)
        (gets (block_is_dirty dirnode.in_first)) _ (Keeps-block_is_dirty c start dirnode.in_first)
        (λ d w.
          Keeps-if c start d (pure dirnode.in_first) (move_dir dirnode)
            (λ e. Keeps-pure c start dirnode.in_first (w e)) (λ e. Keeps-move_dir dirnode))

  Keeps-add_dirent :
      (dirnode : Inode) (d : Block) (i inum : ℕ) (name : List ℕ)
      → Keeps c start (λ u. Unit {0}) (add_dirent dirnode d i inum name)
  unfolding add_dirent
  Keeps-add_dirent dirnode d i inum name =
      Keeps-bind c start (Writable c) (dirblock_for_write dirnode) _
        (Keeps-dirblock_for_write dirnode)
        (λ b w. Keeps-write_block c start b (populate d i inum name) w)

  Keeps-create_at :
      (dirnode : Inode) (d : Block) (i : ℕ) (name : List ℕ)
      → Keeps c start (λ u. Unit {0}) (create_at dirnode d i name)
  unfolding create_at
  Keeps-create_at dirnode d i name =
      Keeps-then c start (run next_inode) _ (Keeps-next_inode c start) (λ o.
        Keeps-then c start (write_inode (empty_file (as_uint16 o))) _ (Keeps-write_inode c start _)
          (λ u. Keeps-add_dirent dirnode d i (as_uint16 o) name))

  Keeps-mkdir_at :
      (dirnode : Inode) (d : Block) (i : ℕ) (name : List ℕ)
      → Keeps c start (λ u. Unit {0}) (mkdir_at dirnode d i name)
  unfolding mkdir_at
  Keeps-mkdir_at dirnode d i name =
      Keeps-then c start (run next_inode) _ (Keeps-next_inode c start) (λ o.
        Keeps-bind c start (λ p. Writable c (as_uint16 p)) (run next_block)
          (λ p.
            modify (write_block (as_uint16 p) (new_directory (as_uint16 o) dirnode.in_inode))
            >> (write_inode (dir_inode (as_uint16 o) (as_uint16 p))
                >> add_dirent dirnode d i (as_uint16 o) name))
          (Keeps-next_block c start)
          (λ p w.
            Keeps-then c start
              (modify (write_block (as_uint16 p) (new_directory (as_uint16 o) dirnode.in_inode))) _
              (Keeps-write_block c start (as_uint16 p) _ w)
              (λ u.
                Keeps-then c start (write_inode (dir_inode (as_uint16 o) (as_uint16 p))) _
                  (Keeps-write_inode c start _)
                  (λ u'. Keeps-add_dirent dirnode d i (as_uint16 o) name))))

  -- The two functions have one shape from the directory's block on.
  Keeps-in :
      (at : Inode → Block → ℕ → List ℕ → M Fs (Unit {0}))
      → ((dirnode : Inode) (d : Block) (i : ℕ) (name : List ℕ)
          → Keeps c start (λ u. Unit {0}) (at dirnode d i name))
      → (dirnode : Inode) (name : List ℕ)
      → Keeps c start
          (λ u. Unit {0})
          (run (read_block dirnode.in_first) >>= λ d.
            on_option
              (lookup_dirent d name)
              (on_option (find_free dir_nents 0 d) (throw enospc) (λ i. at dirnode d i name))
              (λ inum. throw eexist))
  Keeps-in at keeps dirnode name =
      Keeps-then c start (run (read_block dirnode.in_first)) _
        (Keeps-read_block c start dirnode.in_first)
        (λ d.
          Keeps-option c start (lookup_dirent d name) _ _
            (Keeps-option c start (find_free dir_nents 0 d) _ _ (Keeps-throw c start enospc)
              (λ i. keeps dirnode d i name))
            (λ inum. Keeps-throw c start eexist))

  pub Keeps-create : (path : List ℕ) → Keeps c start (λ u. Unit {0}) (create path)
  unfolding create create_in
  Keeps-create path = Keeps-then c start (namei path) _ (Keeps-namei c start path) (λ r.
      Keeps-if c start (ltb filename_max (length r.1)) _ _ (λ e. Keeps-throw c start enametoolong)
        (λ e. Keeps-then c start (is_dir r.0 r.1) _ (Keeps-is_dir c start r.0 r.1) (λ dir.
          Keeps-if c start dir _ _ (λ e'. Keeps-throw c start eisdir)
            (λ e'. Keeps-in create_at Keeps-create_at r.0 r.1))))

  pub Keeps-mkdir : (path : List ℕ) → Keeps c start (λ u. Unit {0}) (mkdir path)
  unfolding mkdir mkdir_in
  Keeps-mkdir path = Keeps-then c start (namei path) _ (Keeps-namei c start path) (λ r.
      Keeps-if c start (ltb filename_max (length r.1)) _ _ (λ e. Keeps-throw c start enametoolong)
        (λ e. Keeps-in mkdir_at Keeps-mkdir_at r.0 r.1))
