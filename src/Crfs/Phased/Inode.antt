-- ===== src/Crfs/Phased/Inode.antt =====
-- `crfs_write_inode` and the path look-ups keep the commit phased.
use cobalt_rom.Prelude.{
  ℕ, ◌%◌, ◌≡◌, Bool-cases, inl, inr, Bool, true, List, [], ◌∷◌, ◌++◌, not, ◌||◌, ◌==◌,
}
use cobalt_rom.Crfs.Layout.{
  Block, zeros, get16, sb_root, Inode, get_inode, put_inode, itable_ninodes,
}
use cobalt_rom.Crfs.State.{Fs, enoent, enotdir}
use cobalt_rom.Crfs.Cache.{read_block, block_is_dirty}
use cobalt_rom.Crfs.Monad.{pure, throw, gets, run, modify, ◌>>=◌}
use cobalt_rom.Crfs.Inode.{
  alloc_block, unmark_block, itable_blocknum, set_itable_blocknum, lookup_inode, new_itable,
  copied_itable, old_itable, itable_for_write, write_inode,
}
use cobalt_rom.Crfs.Dir.{
  slash, lookup_dirent, has_dir_mask, path_element, enter, walk, namei, no_inode,
  inode_lookup_from_namei, is_dir,
}
use cobalt_rom.Crfs.Dir.Walk.{walk_char, walk_slashes, walk_last, walk_below}
use cobalt_rom.Crfs.Phased.{Keeps, Writable}
use cobalt_rom.Crfs.Phased.Rules.{
  Keeps-pure, Keeps-throw, Keeps-bind, Keeps-then, Keeps-if, Keeps-option, Keeps-gets,
  Keeps-block_is_dirty, Keeps-read_block, Keeps-write_block, Keeps-alloc_block, Keeps-unmark_block,
  Keeps-set_itable_blocknum,
}

module _ (c : ℕ → Bool) (start : Fs) where
  -- The first part of the result may be written.
  abbrev Target : ℕ × Block → Type 0
  Target t = Writable c t.0

  Keeps-new_itable : (inum : ℕ) → Keeps c start Target (new_itable inum)
  unfolding new_itable
  Keeps-new_itable inum =
      Keeps-bind c start (Writable c) alloc_block _ (Keeps-alloc_block c start) (λ b w.
        Keeps-then c start (modify (set_itable_blocknum inum b)) _
          (Keeps-set_itable_blocknum c start inum b) (λ u. Keeps-pure c start (b, zeros) w))

  Keeps-copied_itable :
      (inum old : ℕ) (it : Block) → Keeps c start Target (copied_itable inum old it)
  unfolding copied_itable
  Keeps-copied_itable inum old it =
      Keeps-bind c start (Writable c) alloc_block _ (Keeps-alloc_block c start) (λ b w.
        Keeps-then c start (modify (unmark_block old)) _ (Keeps-unmark_block c start old) (λ u.
          Keeps-then c start (modify (set_itable_blocknum inum b)) _
            (Keeps-set_itable_blocknum c start inum b) (λ u'. Keeps-pure c start (b, it) w)))

  Keeps-old_itable : (inum b : ℕ) → Keeps c start Target (old_itable inum b)
  unfolding old_itable
  Keeps-old_itable inum b =
      Keeps-then c start (run (read_block b)) _ (Keeps-read_block c start b) (λ it.
        Keeps-bind c start (λ d. d ≡ true → Writable c b) (gets (block_is_dirty b)) _
          (Keeps-block_is_dirty c start b)
          (λ d w.
            Keeps-if c start d (pure (b, it)) (copied_itable inum b it)
              (λ e. Keeps-pure c start (b, it) (w e)) (λ e. Keeps-copied_itable inum b it)))

  Keeps-itable_for_write : (inum : ℕ) → Keeps c start Target (itable_for_write inum)
  unfolding itable_for_write
  Keeps-itable_for_write inum =
      Keeps-then c start (gets (itable_blocknum inum)) _ (Keeps-gets c start (itable_blocknum inum))
        (λ b.
          Keeps-if c start (b == 0) (new_itable inum) (old_itable inum b)
            (λ e. Keeps-new_itable inum) (λ e. Keeps-old_itable inum b))

  -- `crfs_write_inode` keeps the commit phased, whether it succeeds or not.
  pub Keeps-write_inode : (inode : Inode) → Keeps c start (λ u. Unit {0}) (write_inode inode)
  unfolding write_inode
  Keeps-write_inode inode =
      Keeps-bind c start Target (itable_for_write inode.in_inode) _
        (Keeps-itable_for_write inode.in_inode)
        (λ t w.
          Keeps-write_block c start t.0 (put_inode t.1 (inode.in_inode % itable_ninodes) inode) w)

  pub Keeps-lookup_inode : (inum : ℕ) → Keeps c start (λ u. Unit {0}) (lookup_inode inum)
  unfolding lookup_inode
  Keeps-lookup_inode inum =
      Keeps-then c start (gets (itable_blocknum inum)) _ (Keeps-gets c start (itable_blocknum inum))
        (λ b.
          Keeps-then c start (run (read_block b)) _ (Keeps-read_block c start b)
            (λ it. Keeps-pure c start (get_inode it (inum % itable_ninodes)) tt))

  Keeps-path_element :
      (dir : Inode) (name : List ℕ) → Keeps c start (λ u. Unit {0}) (path_element dir name)
  unfolding path_element
  Keeps-path_element dir name =
      Keeps-then c start (run (read_block dir.in_first)) _ (Keeps-read_block c start dir.in_first)
        (λ d.
          Keeps-option c start (lookup_dirent d name) (throw enoent) pure
            (Keeps-throw c start enoent) (λ inum. Keeps-pure c start inum tt))

  Keeps-enter : (inum : ℕ) → Keeps c start (λ u. Unit {0}) (enter inum)
  unfolding enter
  Keeps-enter inum = Keeps-then c start (lookup_inode inum) _ (Keeps-lookup_inode inum) (λ inode.
      Keeps-if c start (inode.in_inode == 0 || not (has_dir_mask inode)) (throw enotdir)
        (pure inode) (λ e. Keeps-throw c start enotdir) (λ e. Keeps-pure c start inode tt))

  Keeps-walk :
      (dir : Inode) (name rest : List ℕ) → Keeps c start (λ u. Unit {0}) (walk dir name rest)
  Keeps-walk dir name [] = unfold walk in Keeps-pure c start (dir, name) tt
  Keeps-walk dir name (x ∷ rest) = elim (Bool-cases (x == slash)) [
    | inr e ↦ rw (walk_char dir name x rest e) (Keeps-walk dir (name ++ x ∷ []) rest)
    | inl e ↦ at_slash dir name rest e (Keeps-walk dir [] rest) (λ inode. Keeps-walk inode [] rest)
  ]
    where
      at_slash :
          (dir : Inode) (name rest : List ℕ)
          → x == slash ≡ true
          → Keeps c start (λ u. Unit {0}) (walk dir [] rest)
          → ((inode : Inode) → Keeps c start (λ u. Unit {0}) (walk inode [] rest))
          → Keeps c start (λ u. Unit {0}) (walk dir name (x ∷ rest))
      at_slash dir [] rest e skipped below = rw (walk_slashes dir x rest e) skipped
      at_slash dir (n ∷ ns) [] e skipped below = rw (walk_last dir n ns x e) (
          Keeps-then c start (path_element dir (n ∷ ns)) _ (Keeps-path_element dir (n ∷ ns))
            (λ inum. Keeps-pure c start (dir, n ∷ ns) tt))
      at_slash dir (n ∷ ns) (d ∷ rest) e skipped below = rw (walk_below dir n ns x d rest e) (
          Keeps-then c start (path_element dir (n ∷ ns)) _ (Keeps-path_element dir (n ∷ ns))
            (λ inum. Keeps-then c start (enter inum) _ (Keeps-enter inum) below))

  Keeps-walk_from :
      (inum : ℕ) (rest : List ℕ)
      → Keeps c start (λ u. Unit {0}) (lookup_inode inum >>= λ inode. walk inode [] rest)
  Keeps-walk_from inum rest =
      Keeps-then c start (lookup_inode inum) _ (Keeps-lookup_inode inum)
        (λ inode. Keeps-walk inode [] rest)

  pub Keeps-namei : (path : List ℕ) → Keeps c start (λ u. Unit {0}) (namei path)
  unfolding namei
  Keeps-namei [] =
      Keeps-then c start (gets (λ s. s.pwd)) _ (Keeps-gets c start (λ s. s.pwd))
        (λ pwd. Keeps-walk_from pwd [])
  Keeps-namei (x ∷ rest) =
      Keeps-if c start (x == slash) _ _
        (λ e.
          Keeps-then c start (gets (λ s. get16 s.super_block sb_root)) _
            (Keeps-gets c start (λ s. get16 s.super_block sb_root))
            (λ root. Keeps-walk_from root rest))
        (λ e.
          Keeps-then c start (gets (λ s. s.pwd)) _ (Keeps-gets c start (λ s. s.pwd))
            (λ pwd. Keeps-walk_from pwd (x ∷ rest)))

  Keeps-inode_lookup :
      (dirnode : Inode) (name : List ℕ)
      → Keeps c start (λ u. Unit {0}) (inode_lookup_from_namei dirnode name)
  unfolding inode_lookup_from_namei
  Keeps-inode_lookup dirnode [] = Keeps-pure c start dirnode tt
  Keeps-inode_lookup dirnode (x ∷ name) =
      Keeps-then c start (run (read_block dirnode.in_first)) _
        (Keeps-read_block c start dirnode.in_first)
        (λ d.
          Keeps-option c start (lookup_dirent d (x ∷ name)) (pure no_inode) lookup_inode
            (Keeps-pure c start no_inode tt) Keeps-lookup_inode)

  pub Keeps-is_dir :
      (dirnode : Inode) (name : List ℕ) → Keeps c start (λ u. Unit {0}) (is_dir dirnode name)
  unfolding is_dir
  Keeps-is_dir dirnode name =
      Keeps-then c start (inode_lookup_from_namei dirnode name) _ (Keeps-inode_lookup dirnode name)
        (λ inode. Keeps-pure c start (has_dir_mask inode) tt)
