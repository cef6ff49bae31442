-- ===== src/Crfs/Create/Found.antt =====
-- An entry that `crfs_create` or `crfs_mkdir` puts into a directory's block is found there.
use cobalt_rom.Prelude.{
  ℕ, zero, suc, ◌+◌, ◌-◌, ◌≤◌, ◌<◌, ◌≡◌, ◌⊎◌, refl, sym, ◌∙◌, ap, Bool, true, false, not, ◌&&◌,
  Option, none, some, List, [], ◌∷◌, length, get_or, ltb, leb, ◌==◌, ==_iff, Bool-cases,
  Option-cases, inl, inr, if◌then◌else◌, arith,
}
use cobalt_rom.Crfs.Layout.{
  Block, get16, put16, get_string, filename_max, dir_nents, de_inode, de_name,
}
use cobalt_rom.Crfs.Layout.Strings.{NoNul, string_from-agree, string_from-list}
use cobalt_rom.Crfs.Dir.{same_name, find_dirent, lookup_dirent}
use cobalt_rom.Crfs.Create.{cut, populate}

-- Every entry's name ends within the entry.
abbrev pub IsDirectory : Block → Type 0
IsDirectory d = (k : ℕ) → k < dir_nents → d (de_name k + filename_max) ≡ 0

-- The entry is in use and has the name.
abbrev pub here : Block → List ℕ → ℕ → Bool
here d name i = same_name name (get_string d (de_name i)) && not (get16 d (de_inode i) == 0)

cut-all : (n : ℕ) (xs : List ℕ) → length xs ≤ n → cut n xs ≡ xs
unfolding cut
cut-all zero [] h = refl
cut-all zero (x ∷ xs) h = absurd (omega (arith, h))
cut-all (suc n) [] h = refl
cut-all (suc n) (x ∷ xs) h = ap (λ ys. x ∷ ys) (cut-all n xs (omega (arith, h)))

same_name_refl : (xs : List ℕ) → same_name xs xs ≡ true
unfolding same_name
same_name_refl [] = refl
same_name_refl (x ∷ xs) = ground (arith, same_name_refl xs)

module _ (d : Block) (i inum : ℕ) (name : List ℕ) where
  pub name_byte :
      (k : ℕ)
      → k ≤ filename_max
      → populate d i inum name (de_name i + k) ≡ get_or (cut filename_max name) k 0
  unfolding populate
  name_byte k h = rw (inside, back) refl
    where
      inside :
          (leb (de_name i) (de_name i + k) && leb (de_name i + k) (de_name i + filename_max)) ≡ true
      inside = ground (arith, h)

      back : de_name i + k - de_name i ≡ k
      back = omega arith

  pub number : inum < 65536 → get16 (populate d i inum name) (de_inode i) ≡ inum
  unfolding populate get16 put16
  number h = ground arith

  pub other_byte :
      (k j : ℕ)
      → (k < i) ⊎ (i < k)
      → de_inode k ≤ j
      → j < de_inode k + 64
      → populate d i inum name j ≡ d j
  unfolding populate put16
  other_byte k j (inl h) lo hi = ground arith
  other_byte k j (inr h) lo hi = ground arith

  pub own_name :
      length name ≤ filename_max
      → NoNul name
      → i < dir_nents
      → get_string (populate d i inum name) (de_name i) ≡ name
  unfolding get_string
  own_name h ok lt =
      string_from-list (4096 - de_name i) (de_name i) (populate d i inum name) name bytes ok
        (omega (arith, h, lt))
    where
      bytes : (k : ℕ) → k ≤ length name → populate d i inum name (de_name i + k) ≡ get_or name k 0
      bytes k le =
          name_byte k (omega (arith, le, h))
          ∙ ap (λ xs. get_or xs k 0) (cut-all filename_max name h)

  here_self :
      length name ≤ filename_max
      → NoNul name
      → i < dir_nents
      → 0 < inum
      → inum < 65536
      → here (populate d i inum name) name i ≡ true
  here_self h ok lt pos fits =
      rw (own_name h ok lt, number fits, same_name_refl name) (ground (arith, pos))

  pub here_other :
      (other : List ℕ) (k : ℕ)
      → IsDirectory d
      → k < dir_nents
      → (k < i) ⊎ (i < k)
      → here (populate d i inum name) other k ≡ here d other k
  here_other other k dir lt ne = rw (same_string, same_number) refl
    where
      same_string : get_string (populate d i inum name) (de_name k) ≡ get_string d (de_name k)
      same_string =
          unfold get_string in
          string_from-agree (4096 - de_name k) (de_name k) filename_max d (populate d i inum name)
            (λ j lo hi. other_byte k j ne (omega (arith, lo)) (omega (arith, hi))) (dir k lt)

      same_number : get16 (populate d i inum name) (de_inode k) ≡ get16 d (de_inode k)
      same_number =
          unfold get16 in
          omega (
            arith,
            other_byte k (de_inode k) ne (omega arith) (omega arith),
            other_byte k (de_inode k + 1) ne (omega arith) (omega arith),
          )

pub find_dirent-suc :
    (n j : ℕ) (d : Block) (name : List ℕ)
    → find_dirent (suc n) j d name
      ≡ (if here d name j then some j else find_dirent n (j + 1) d name)
unfolding find_dirent
find_dirent-suc n j d name = ground arith

-- A change of entry `i` that makes it match shows in the search.
find_dirent-here :
    (n j i : ℕ) (d d' : Block) (name : List ℕ)
    → ((k : ℕ) → k < j + n → (k < i) ⊎ (i < k) → here d' name k ≡ here d name k)
    → here d' name i ≡ true
    → find_dirent n j d name ≡ none
    → j ≤ i
    → i < j + n
    → find_dirent n j d' name ≡ some i
find_dirent-here zero j i d d' name same self gone lo hi = absurd (omega (arith, lo, hi))
find_dirent-here (suc n) j i d d' name same self gone lo hi = elim (Bool-cases (j == i)) [
  | inl e ↦ find_dirent-suc n j d' name ∙ rw ((==_iff j i).0 e, self) refl
  | inr e ↦
      find_dirent-suc n j d' name
      ∙ rw (same j (omega arith) (apart j i e), skipped.0)
          (find_dirent-here n (j + 1) i d d' name (λ k h. same k (omega (arith, h))) self skipped.1
            (ground (arith, lo, e)) (omega (arith, hi)))
]
  where
    apart : (a b : ℕ) → a == b ≡ false → (a < b) ⊎ (b < a)
    apart a b e = elim (Bool-cases (ltb a b)) [
      | inl h ↦ inl (ground (arith, h))
      | inr h ↦ inr (ground (arith, h, e))
    ]

    split : (t : Bool) (r : Option ℕ) → (if t then some j else r) ≡ none → (t ≡ false) × (r ≡ none)
    split t r e = ground (arith, e)

    skipped : (here d name j ≡ false) × (find_dirent n (j + 1) d name ≡ none)
    skipped =
        split (here d name j) (find_dirent n (j + 1) d name)
          (sym (find_dirent-suc n j d name) ∙ gone)

pub lookup_dirent-find :
    (d : Block) (name : List ℕ)
    → length name ≤ filename_max
    → lookup_dirent d name
      ≡ elim (find_dirent dir_nents 0 d name) [ none ↦ none | some i ↦ some (get16 d (de_inode i)) ]
unfolding lookup_dirent
lookup_dirent-find d name short = rw long refl
  where
    long : ltb filename_max (length name) ≡ false
    long = ground (arith, short)

-- In a directory whose names end within their entries, and which has no entry of a name, the search
-- finds the name once it is entered with an inode number from 1 to 65535, whatever place it is
-- entered in, if the name has at most 59 characters and no NUL.
pub lookup_dirent-populate :
    (d : Block) (i inum : ℕ) (name : List ℕ)
    → IsDirectory d
    → i < dir_nents
    → 0 < inum
    → inum < 65536
    → length name ≤ filename_max
    → NoNul name
    → lookup_dirent d name ≡ none
    → lookup_dirent (populate d i inum name) name ≡ some inum
lookup_dirent-populate d i inum name dir lt pos fits short ok gone =
    lookup_dirent-find (populate d i inum name) name short
    ∙ rw found (ap (λ n. some n) (number d i inum name fits))
  where
    missing : find_dirent dir_nents 0 d name ≡ none
    missing = elim (Option-cases (find_dirent dir_nents 0 d name)) [
      | inl e ↦ e
      | inr (j, e) ↦
          let p : some (get16 d (de_inode j)) ≡ none =
            rw (lookup_dirent-find d name short, e) at gone in
          absurd (ground (arith, p))
    ]

    found : find_dirent dir_nents 0 (populate d i inum name) name ≡ some i
    found =
        find_dirent-here dir_nents 0 i d (populate d i inum name) name
          (λ k h ne. here_other d i inum name name k dir h ne)
          (here_self d i inum name short ok lt pos fits) missing (omega arith) lt
