-- ===== src/Crfs/Dir/Walk.antt =====
-- The loop of `crfs_namei`, one case at a time.
use cobalt_rom.Prelude.{ℕ, ◌≡◌, refl, true, false, List, [], ◌∷◌, ◌++◌, ◌==◌}
use cobalt_rom.Crfs.Layout.{Inode}
use cobalt_rom.Crfs.Monad.{pure, ◌>>=◌}
use cobalt_rom.Crfs.Dir.{slash, path_element, enter, walk}

module _ (dir : Inode) where
  pub walk_char :
      (name : List ℕ) (c : ℕ) (rest : List ℕ)
      → c == slash ≡ false
      → walk dir name (c ∷ rest) ≡ walk dir (name ++ c ∷ []) rest
  unfolding walk
  walk_char name c rest e = rw (e, walk) refl

  pub walk_slashes :
      (c : ℕ) (rest : List ℕ) → c == slash ≡ true → walk dir [] (c ∷ rest) ≡ walk dir [] rest
  unfolding walk
  walk_slashes c rest e = rw (e, walk) refl

  pub walk_last :
      (n : ℕ) (ns : List ℕ) (c : ℕ)
      → c == slash ≡ true
      → walk dir (n ∷ ns) (c ∷ []) ≡ (path_element dir (n ∷ ns) >>= λ _. pure (dir, n ∷ ns))
  unfolding walk
  walk_last n ns c e = rw (e, walk) refl

  pub walk_below :
      (n : ℕ) (ns : List ℕ) (c d : ℕ) (rest : List ℕ)
      → c == slash ≡ true
      → walk dir (n ∷ ns) (c ∷ d ∷ rest)
        ≡ (path_element dir (n ∷ ns) >>= λ inum. enter inum >>= λ inode. walk inode [] (d ∷ rest))
  unfolding walk
  walk_below n ns c d rest e = rw (e, walk) refl
