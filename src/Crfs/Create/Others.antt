-- ===== src/Crfs/Create/Others.antt =====
-- What entering a name in a directory's block does to the other entries.
use cobalt_rom.Prelude.{
  ℕ, zero, suc, ◌+◌, ◌≤◌, ◌<◌, ◌≡◌, ◌⊎◌, refl, sym, ◌∙◌, ap, Bool, true, false, Option, none, some,
  List, [], ◌∷◌, length, get_or, ltb, ◌==◌, ==_iff, Bool-cases, inl, inr, if◌then◌else◌, arith,
}
use cobalt_rom.Crfs.Layout.{Block, get16, filename_max, dir_nents, de_inode, de_name}
use cobalt_rom.Crfs.Layout.Strings.{NoNul}
use cobalt_rom.Crfs.Dir.{same_name, find_dirent, lookup_dirent}
use cobalt_rom.Crfs.Create.{cut, populate}
use cobalt_rom.Crfs.Create.Found.{
  IsDirectory, here, find_dirent-suc, lookup_dirent-find, name_byte, other_byte, own_name,
  here_other,
}

apart : (a b : ℕ) → a == b ≡ false → (a < b) ⊎ (b < a)
apart a b e = elim (Bool-cases (ltb a b)) [
  | inl h ↦ inl (ground (arith, h))
  | inr h ↦ inr (ground (arith, h, e))
]

cut-beyond : (n k : ℕ) (xs : List ℕ) → n ≤ k → get_or (cut n xs) k 0 ≡ 0
unfolding cut
cut-beyond zero k xs h = refl
cut-beyond (suc n) k [] h = refl
cut-beyond (suc n) zero (x ∷ xs) h = absurd (omega (arith, h))
cut-beyond (suc n) (suc k) (x ∷ xs) h = cut-beyond n k xs (omega (arith, h))

-- Entering a name, whatever its length, leaves a directory in which every name ends within its
-- entry.
pub populate-IsDirectory :
    (d : Block) (i inum : ℕ) (name : List ℕ) → IsDirectory d → IsDirectory (populate d i inum name)
populate-IsDirectory d i inum name dir k lt = elim (Bool-cases (k == i)) [
  | inl e ↦ rw ((==_iff k i).0 e) (
      name_byte d i inum name filename_max (omega arith)
      ∙ cut-beyond filename_max filename_max name (omega arith))
  | inr e ↦
      other_byte d i inum name k (de_name k + filename_max) (apart k i e) (omega arith)
        (omega arith)
      ∙ dir k lt
]

-- The entry that the search finds is in use and has the name.
record Found (d : Block) (name : List ℕ) (n j r : ℕ) : Type 0 where
  high : r < j + n
  match : here d name r ≡ true

find_dirent-Found :
    (n j r : ℕ) (d : Block) (name : List ℕ) → find_dirent n j d name ≡ some r → Found d name n j r
find_dirent-Found zero j r d name e = absurd (unfold find_dirent in ground (arith, e))
find_dirent-Found (suc n) j r d name e = elim (Bool-cases (here d name j)) [
  | inl h ↦
      let p : j ≡ r =
        stop (here d name j) (find_dirent n (j + 1) d name) h
          (sym (find_dirent-suc n j d name) ∙ e) in
      record { high = omega (arith, p); match = rw (← p) h }
  | inr h ↦
      let f : Found d name n (j + 1) r = find_dirent-Found n (j + 1) r d name (
        pass (here d name j) (find_dirent n (j + 1) d name) h
          (sym (find_dirent-suc n j d name) ∙ e)) in
      record { high = omega (arith, f.high); match = f.match }
]
  where
    stop : (t : Bool) (x : Option ℕ) → t ≡ true → (if t then some j else x) ≡ some r → j ≡ r
    stop t x h e = ground (arith, h, e)

    pass : (t : Bool) (x : Option ℕ) → t ≡ false → (if t then some j else x) ≡ some r → x ≡ some r
    pass t x h e = ground (arith, h, e)

find_dirent-same :
    (n j : ℕ) (d d' : Block) (name : List ℕ)
    → ((k : ℕ) → k < j + n → here d' name k ≡ here d name k)
    → find_dirent n j d' name ≡ find_dirent n j d name
find_dirent-same zero j d d' name same = unfold find_dirent in refl
find_dirent-same (suc n) j d d' name same =
    find_dirent-suc n j d' name
    ∙ rw
        (
          same j (omega arith),
          find_dirent-same n (j + 1) d d' name (λ k h. same k (omega (arith, h))),
        )
        refl
    ∙ sym (find_dirent-suc n j d name)

no_confusion : (t : Bool) → t ≡ true → t ≡ false → ⊥
no_confusion t p q = ground (arith, p, q)

-- In a directory whose names end within their entries, entering a name of at most 59 characters and
-- no NUL in an unused place changes the search for no other name of at most 59 characters.
pub lookup_dirent-populate_ne :
    (d : Block) (i inum : ℕ) (name other : List ℕ)
    → IsDirectory d
    → i < dir_nents
    → get16 d (de_inode i) ≡ 0
    → length name ≤ filename_max
    → NoNul name
    → same_name other name ≡ false
    → length other ≤ filename_max
    → lookup_dirent (populate d i inum name) other ≡ lookup_dirent d other
lookup_dirent-populate_ne d i inum name other dir lt unused short ok ne short' =
    lookup_dirent-find d' other short'
    ∙ rw same_place (go (find_dirent dir_nents 0 d other) refl)
    ∙ sym (lookup_dirent-find d other short')
  where
    d' : Block
    d' = populate d i inum name

    was_unused : here d other i ≡ false
    was_unused = rw unused (ground arith)

    is_other : here d' other i ≡ false
    is_other = rw (own_name d i inum name short ok lt, ne) refl

    same_here : (k : ℕ) → k < 0 + dir_nents → here d' other k ≡ here d other k
    same_here k h = elim (Bool-cases (k == i)) [
      | inl e ↦ rw ((==_iff k i).0 e, was_unused, is_other) refl
      | inr e ↦ here_other d i inum name other k dir (omega (arith, h)) (apart k i e)
    ]

    same_place : find_dirent dir_nents 0 d' other ≡ find_dirent dir_nents 0 d other
    same_place = find_dirent-same dir_nents 0 d d' other same_here

    elsewhere : (j : ℕ) → Found d other dir_nents 0 j → (j < i) ⊎ (i < j)
    elsewhere j f = elim (Bool-cases (j == i)) [
      | inl e ↦
          let p : here d other i ≡ true = rw (← (==_iff j i).0 e) f.match in
          absurd (no_confusion (here d other i) p was_unused)
      | inr e ↦ apart j i e
    ]

    same_number : (j : ℕ) → (j < i) ⊎ (i < j) → get16 d' (de_inode j) ≡ get16 d (de_inode j)
    same_number j ne =
        unfold get16 in
        omega (
          arith,
          other_byte d i inum name j (de_inode j) ne (omega arith) (omega arith),
          other_byte d i inum name j (de_inode j + 1) ne (omega arith) (omega arith),
        )

    number_at : Block → Option ℕ → Option ℕ
    number_at b o = elim o [ none ↦ none | some j ↦ some (get16 b (de_inode j)) ]

    go : (o : Option ℕ) → find_dirent dir_nents 0 d other ≡ o → number_at d' o ≡ number_at d o
    go none e = refl
    go (some j) e =
        ap (λ n. some n) (same_number j (elsewhere j (find_dirent-Found dir_nents 0 j d other e)))
