-- ===== src/Text/Memory/Strings.antt =====
-- The copies of strings against the lists of their characters.
use cobalt_rom.Prelude.{
  ℕ, zero, suc, ◌+◌, ◌-◌, ◌≤◌, ◌<◌, ◌≡◌, ◌⊎◌, refl, sym, ◌∙◌, ap, inl, inr, true, false, Option,
  some, ◌==◌, ==_iff, List, [], ◌∷◌, ◌++◌, length, take, arith, length-append,
}
use cobalt_rom.Text.Memory.{
  put, find_end, strlen, put_string, put_part, strcpy, strcat, strncat, strdup,
}

-- The string at an address, with its NUL.
unfoldable pub Lies : (ℕ → ℕ) → ℕ → List ℕ → Type 0
Lies mem a [] = mem a ≡ 0
Lies mem a (x ∷ xs) = (mem a ≡ x) × ((x == 0) ≡ false) × Lies mem (a + 1) xs

Lies-same :
    (mem m : ℕ → ℕ) (a : ℕ) (xs : List ℕ)
    → Lies mem a xs
    → ((j : ℕ) → a ≤ j → j ≤ a + length xs → m j ≡ mem j)
    → Lies m a xs
unfolding Lies
Lies-same mem m a [] h same = same a (ground arith) (ground arith) ∙ h
Lies-same mem m a (x ∷ xs) (at, nz, rest) same = (
  same a (ground arith) (ground arith) ∙ at,
  nz,
  Lies-same mem m (a + 1) xs rest (λ j lo hi. same j (ground arith) (ground arith)),
)

-- Two regions of `n + 1` and `k + 1` bytes that share no byte.
abbrev pub Apart : ℕ → ℕ → ℕ → ℕ → Type 0
Apart a n b k = (a + n < b) ⊎ (b + k < a)

-- What a copy of `xs` to `a` leaves, with the pointer to its NUL.
abbrev pub IsCopied : ℕ → List ℕ → (ℕ → ℕ) → Option (ℕ × (ℕ → ℕ)) → Type 0
IsCopied a xs mem r =
    (m : ℕ → ℕ) × (r ≡ some (a + length xs, m))
    × Lies m a xs
    × ((j : ℕ) → (j < a) ⊎ (a + length xs < j) → m j ≡ mem j)

find_end_lem :
    (f a : ℕ) (xs : List ℕ) (mem : ℕ → ℕ)
    → Lies mem a xs
    → length xs < f
    → find_end f a mem ≡ some (a + length xs)
unfolding Lies find_end
find_end_lem zero a xs mem h enough = ground arith
find_end_lem (suc f) a [] mem h enough =
    let z : (mem a == 0) ≡ true = (==_iff _ _).1 h in
    let at : a ≡ a + 0 = omega arith in rw z (ap some at)
find_end_lem (suc f) a (x ∷ xs) mem (at, nz, rest) enough =
    let z : (mem a == 0) ≡ false = ap (λ v. v == 0) at ∙ nz in
    let whole : a + 1 + length xs ≡ a + length (x ∷ xs) = omega arith in
    rw z (find_end_lem f (a + 1) xs mem rest (omega (arith, enough)) ∙ ap some whole)

IsCopied-nil : (a : ℕ) (mem : ℕ → ℕ) → IsCopied a [] mem (some (a, put a 0 mem))
unfolding Lies
IsCopied-nil a mem =
    let at : a ≡ a + 0 = omega arith in
    (
      put a 0 mem,
      ap (λ e. some (e, put a 0 mem)) at,
      ground arith,
      λ j out. elim out [ inl lo ↦ ground arith | inr hi ↦ ground arith ],
    )

-- The rest of the string that is copied, after its first character.
Lies-put :
    (a b n v : ℕ) (xs : List ℕ) (mem : ℕ → ℕ)
    → Lies mem (b + 1) xs
    → Apart a n b (suc (length xs))
    → Lies (put a v mem) (b + 1) xs
Lies-put a b n v xs mem rest apart =
    Lies-same mem (put a v mem) (b + 1) xs rest
      (λ j lo hi. elim apart [ inl l ↦ ground arith | inr l ↦ ground arith ])

-- A copy of one more character.
IsCopied-cons :
    (a v x : ℕ) (xs : List ℕ) (mem : ℕ → ℕ) (r : Option (ℕ × (ℕ → ℕ)))
    → v ≡ x
    → (x == 0) ≡ false
    → IsCopied (a + 1) xs (put a v mem) r
    → IsCopied a (x ∷ xs) mem r
unfolding Lies
IsCopied-cons a v x xs mem r at nz more =
    let whole : a + 1 + length xs ≡ a + length (x ∷ xs) = omega arith in
    let first : put a v mem a ≡ v = ground arith in
    (
      more.0,
      more.1 ∙ ap (λ e. some (e, more.0)) whole,
      (more.3 a (inl (omega arith)) ∙ first ∙ at, nz, more.2),
      λ j out.
          let past : (j < a + 1) ⊎ (a + 1 + length xs < j) = elim out [
            | inl l ↦ inl (omega (arith, l))
            | inr l ↦ inr (omega (arith, l))
          ] in
          let other : put a v mem j ≡ mem j = elim out [
            | inl l ↦ ground arith
            | inr l ↦ ground arith
          ] in
          more.3 j past ∙ other,
    )

put_string_lem :
    (f a b : ℕ) (xs : List ℕ) (mem : ℕ → ℕ)
    → Lies mem b xs
    → Apart a (length xs) b (length xs)
    → length xs < f
    → IsCopied a xs mem (put_string f a b mem)
unfolding Lies put_string
put_string_lem zero a b xs mem h apart enough = ground arith
put_string_lem (suc f) a b [] mem h apart enough =
    let z : (mem b == 0) ≡ true = (==_iff _ _).1 h in rw z (IsCopied-nil a mem)
put_string_lem (suc f) a b (x ∷ xs) mem (at, nz, rest) apart enough =
    let z : (mem b == 0) ≡ false = ap (λ v. v == 0) at ∙ nz in
    let more =
      put_string_lem f (a + 1) (b + 1) xs (put a (mem b) mem)
        (Lies-put a b (suc (length xs)) (mem b) xs mem rest apart)
        (elim apart [ inl l ↦ inl (omega (arith, l)) | inr l ↦ inr (omega (arith, l)) ])
        (omega (arith, enough)) in
    let same : put_string (suc f) a b mem ≡ put_string f (a + 1) (b + 1) (put a (mem b) mem) =
      rw z refl in
    rw same (IsCopied-cons a (mem b) x xs mem _ at nz more)

-- The pointer after `len` characters, or after the string's end.
put_part_lem :
    (n a b : ℕ) (xs : List ℕ) (mem : ℕ → ℕ)
    → Lies mem b xs
    → Apart a (length (take n xs)) b (length xs)
    → IsCopied a (take n xs) mem (some (put_part n a b mem))
unfolding Lies put_part
put_part_lem zero a b xs mem h apart = IsCopied-nil a mem
put_part_lem (suc n) a b [] mem h apart =
    let z : (mem b == 0) ≡ true = (==_iff _ _).1 h in rw z (IsCopied-nil a mem)
put_part_lem (suc n) a b (x ∷ xs) mem (at, nz, rest) apart =
    let z : (mem b == 0) ≡ false = ap (λ v. v == 0) at ∙ nz in
    let more =
      put_part_lem n (a + 1) (b + 1) xs (put a (mem b) mem)
        (Lies-put a b (length (take (suc n) (x ∷ xs))) (mem b) xs mem rest apart)
        (elim apart [ inl l ↦ inl (omega (arith, l)) | inr l ↦ inr (omega (arith, l)) ]) in
    let same : put_part (suc n) a b mem ≡ put_part n (a + 1) (b + 1) (put a (mem b) mem) =
      rw z refl in
    rw same (IsCopied-cons a (mem b) x (take n xs) mem _ at nz more)

Lies-append :
    (mem m : ℕ → ℕ) (a : ℕ) (xs ys : List ℕ)
    → Lies mem a xs
    → ((j : ℕ) → a ≤ j → j < a + length xs → m j ≡ mem j)
    → Lies m (a + length xs) ys
    → Lies m a (xs ++ ys)
unfolding Lies
Lies-append mem m a [] ys h same more = let at : a + 0 ≡ a = omega arith in rw (sym at) more
Lies-append mem m a (x ∷ xs) ys (at, nz, rest) same more =
    let next : a + length (x ∷ xs) ≡ a + 1 + length xs = omega arith in
    (
      same a (ground arith) (ground arith) ∙ at,
      nz,
      Lies-append mem m (a + 1) xs ys rest (λ j lo hi. same j (ground arith) (ground arith))
          (rw (sym next) more),
    )

-- With fuel for the two strings, and when the bytes that strcat writes are apart from the string that
-- it appends, the two strings stand one after the other where the first stood, no byte outside those
-- that the second now takes has changed, and what strcat returns is the place of the NUL.
pub strcat_lem :
    (f a b : ℕ) (xs ys : List ℕ) (mem : ℕ → ℕ)
    → Lies mem a xs
    → Lies mem b ys
    → Apart (a + length xs) (length ys) b (length ys)
    → length xs < f
    → length ys < f
    → (m : ℕ → ℕ) × (strcat f a b mem ≡ some (a + length (xs ++ ys), m))
      × Lies m a (xs ++ ys)
      × ((j : ℕ) → (j < a + length xs) ⊎ (a + length (xs ++ ys) < j) → m j ≡ mem j)
unfolding strcat
strcat_lem f a b xs ys mem first second apart enough enough2 =
    let done = put_string_lem f (a + length xs) b ys mem second apart enough2 in
    let whole : a + length xs + length ys ≡ a + length (xs ++ ys) =
      rw (length-append xs ys) (omega arith) in
    (
      done.0,
      rw (strcat, find_end_lem f a xs mem first enough) (done.1 ∙ ap (λ e. some (e, done.0)) whole),
      Lies-append mem done.0 a xs ys first (λ j lo hi. done.3 j (inl hi)) done.2,
      λ j out. done.3 j (elim out [ inl l ↦ inl l | inr l ↦ inr (omega (arith, whole, l)) ]),
    )

-- strncat appends the first `len` characters of the second string, or all of it if it is shorter.
pub strncat_lem :
    (f a b len : ℕ) (xs ys : List ℕ) (mem : ℕ → ℕ)
    → Lies mem a xs
    → Lies mem b ys
    → Apart (a + length xs) (length (take len ys)) b (length ys)
    → length xs < f
    → (m : ℕ → ℕ) × (strncat f a b len mem ≡ some (a + length (xs ++ take len ys), m))
      × Lies m a (xs ++ take len ys)
      × ((j : ℕ) → (j < a + length xs) ⊎ (a + length (xs ++ take len ys) < j) → m j ≡ mem j)
unfolding strncat
strncat_lem f a b len xs ys mem first second apart enough =
    let done = put_part_lem len (a + length xs) b ys mem second apart in
    let whole : a + length xs + length (take len ys) ≡ a + length (xs ++ take len ys) =
      rw (length-append xs (take len ys)) (omega arith) in
    (
      done.0,
      rw (strncat, find_end_lem f a xs mem first enough)
          (done.1 ∙ ap (λ e. some (e, done.0)) whole),
      Lies-append mem done.0 a xs (take len ys) first (λ j lo hi. done.3 j (inl hi)) done.2,
      λ j out. done.3 j (elim out [ inl l ↦ inl l | inr l ↦ inr (omega (arith, whole, l)) ]),
    )

-- When the block that malloc gives is apart from the string, strdup returns it with a copy of the
-- string, and no byte outside the block has changed.
pub strdup_lem :
    (block : ℕ → Option ℕ) (f s new : ℕ) (xs : List ℕ) (mem : ℕ → ℕ)
    → Lies mem s xs
    → block (length xs + 1) ≡ some new
    → Apart new (length xs) s (length xs)
    → length xs < f
    → (m : ℕ → ℕ) × (strdup block f s mem ≡ some (some new, m))
      × Lies m new xs
      × ((j : ℕ) → (j < new) ⊎ (new + length xs < j) → m j ≡ mem j)
unfolding strdup strlen strcpy
strdup_lem block f s new xs mem lies given apart enough =
    let done = put_string_lem f new s xs mem lies apart enough in
    let len : s + length xs - s + 1 ≡ length xs + 1 = omega arith in
    (
      done.0,
      rw (strdup, strlen, find_end_lem f s xs mem lies enough, len, given, strcpy, done.1) refl,
      done.2,
      done.3,
    )
