-- ===== src/Text/Memory/Move.antt =====
-- memmove, which may overlap.
use cobalt_rom.Prelude.{
  ℕ, zero, suc, ◌+◌, ◌-◌, ◌≤◌, ◌≡◌, ◌⊎◌, refl, ◌∙◌, inl, inr, true, false, ◌&&◌, Bool-cases, ltb,
  leb, ◌==◌, ==_iff, if◌then◌else◌, arith,
}
use cobalt_rom.Text.Memory.{put, memcpy, copy_down, memmove}

-- The memory with the `n` bytes from `src` on at `dest`.
abbrev pub moved : ℕ → ℕ → ℕ → (ℕ → ℕ) → ℕ → ℕ
moved dest src n mem j = if leb dest j && ltb j (dest + n) then mem (src + (j - dest)) else mem j

memcpy_lem :
    (n dest src : ℕ) (mem : ℕ → ℕ)
    → (dest ≤ src) ⊎ (src + n ≤ dest)
    → (j : ℕ) → memcpy dest src n mem j ≡ moved dest src n mem j
unfolding memcpy
memcpy_lem zero dest src mem apart j = ground arith
memcpy_lem (suc n) dest src mem apart j =
    memcpy_lem n (dest + 1) (src + 1) (put dest (mem src) mem) next j ∙ same
  where
    next : (dest + 1 ≤ src + 1) ⊎ (src + 1 + n ≤ dest + 1)
    next = elim apart [ inl h ↦ inl (omega (arith, h)) | inr h ↦ inr (omega (arith, h)) ]

    same : moved (dest + 1) (src + 1) n (put dest (mem src) mem) j ≡ moved dest src (suc n) mem j
    same = elim (Bool-cases (j == dest)) [
      | inl e ↦ first ((==_iff _ _).0 e)
      | inr e ↦ elim (Bool-cases (leb dest j && ltb j (dest + suc n))) [
        | inl f ↦ within e f
        | inr f ↦ ground arith
      ]
    ]
      where
        first :
            j ≡ dest
            → moved (dest + 1) (src + 1) n (put dest (mem src) mem) j ≡ moved dest src (suc n) mem j
        first e =
            let at : src + (j - dest) ≡ src = omega (arith, e) in
            let out : leb (dest + 1) j && ltb j (dest + 1 + n) ≡ false = ground arith in
            let is : (j == dest) ≡ true = (==_iff _ _).1 e in
            let full : leb dest j && ltb j (dest + suc n) ≡ true = ground arith in
            rw (out, is, full, at) refl

        within :
            (j == dest) ≡ false
            → leb dest j && ltb j (dest + suc n) ≡ true
            → moved (dest + 1) (src + 1) n (put dest (mem src) mem) j ≡ moved dest src (suc n) mem j
        within e f =
            let at : src + 1 + (j - (dest + 1)) ≡ src + (j - dest) = ground arith in
            let rest : leb (dest + 1) j && ltb j (dest + 1 + n) ≡ true = ground arith in
            let other : (src + (j - dest) == dest) ≡ false = elim apart [
              | inl h ↦ ground arith
              | inr h ↦ ground arith
            ] in
            rw (rest, f, at, other) refl

copy_down_lem :
    (n dest src : ℕ) (mem : ℕ → ℕ)
    → src ≤ dest
    → (j : ℕ) → copy_down dest src n mem j ≡ moved dest src n mem j
unfolding copy_down
copy_down_lem zero dest src mem below j = ground arith
copy_down_lem (suc n) dest src mem below j =
    copy_down_lem n dest src (put (dest + n) (mem (src + n)) mem) below j ∙ same
  where
    same : moved dest src n (put (dest + n) (mem (src + n)) mem) j ≡ moved dest src (suc n) mem j
    same = elim (Bool-cases (j == dest + n)) [
      | inl e ↦ last ((==_iff _ _).0 e)
      | inr e ↦ elim (Bool-cases (leb dest j && ltb j (dest + suc n))) [
        | inl f ↦ within e f
        | inr f ↦ ground arith
      ]
    ]
      where
        last :
            j ≡ dest + n
            → moved dest src n (put (dest + n) (mem (src + n)) mem) j ≡ moved dest src (suc n) mem j
        last e =
            let at : src + (j - dest) ≡ src + n = omega (arith, e) in
            let out : leb dest j && ltb j (dest + n) ≡ false = ground arith in
            let is : (j == dest + n) ≡ true = (==_iff _ _).1 e in
            let full : leb dest j && ltb j (dest + suc n) ≡ true = ground arith in
            rw (out, is, full, at) refl

        within :
            (j == dest + n) ≡ false
            → leb dest j && ltb j (dest + suc n) ≡ true
            → moved dest src n (put (dest + n) (mem (src + n)) mem) j ≡ moved dest src (suc n) mem j
        within e f =
            let rest : leb dest j && ltb j (dest + n) ≡ true = ground arith in
            let other : (src + (j - dest) == dest + n) ≡ false = ground arith in
            rw (rest, f, other) refl

-- However the two regions lie, also when they overlap, memmove leaves at `dest` the `n` bytes that
-- stood from `src` on before it ran, and every other byte as it was.
pub memmove_lem :
    (dest src n : ℕ) (mem : ℕ → ℕ) (j : ℕ) → memmove dest src n mem j ≡ moved dest src n mem j
unfolding memmove
memmove_lem dest src n mem j = elim (Bool-cases (ltb dest src)) [
  | inl e ↦ rw e (memcpy_lem n dest src mem (inl (ground arith)) j)
  | inr e ↦ rw e (copy_down_lem n dest src mem (ground arith) j)
]
