-- ===== src/Text/Compare.antt =====
-- strcmp and strncmp as tests of equality.
use cobalt_rom.Prelude.{
  ℕ, zero, suc, ◌<◌, ◌≡◌, ◌↔◌, refl, ap, inl, inr, true, Bool-cases, ◌==◌, ==_iff, ==_false_iff,
  List, [], ◌∷◌, length, get_or, take, arith, drop,
}
use cobalt_rom.Text.{strcmp, strncmp, is_zero}

-- Characters of a C string are not NUL.
abbrev pub NoNul : List ℕ → Type 0
NoNul [] = Unit {0}
NoNul (c ∷ cs) = (0 < c) × NoNul cs

-- strncmp of two C strings gives 0 exactly when their first `n` characters agree.
pub strncmp_iff :
    (xs ys : List ℕ) (n : ℕ)
    → NoNul xs
    → NoNul ys
    → (is_zero (strncmp xs ys n) ≡ true) ↔ (take n xs ≡ take n ys)
unfolding strncmp
strncmp_iff xs ys zero hx hy = ((λ e. refl), (λ e. refl))
strncmp_iff [] [] (suc n) hx hy = ((λ e. refl), (λ e. refl))
strncmp_iff [] (y ∷ ys) (suc n) hx hy =
    ((λ e. absurd (ground (arith, e, hy.0))), (λ e. absurd (omega (arith, ap length e))))
strncmp_iff (x ∷ xs) [] (suc n) hx hy =
    ((λ e. absurd (ground (arith, e, hx.0))), (λ e. absurd (omega (arith, ap length e))))
strncmp_iff (x ∷ xs) (y ∷ ys) (suc n) hx hy = elim (Bool-cases (x == y)) [
  | inl e ↦
      let p : x ≡ y = (==_iff x y).0 e in
      let rest = strncmp_iff xs ys n hx.1 hy.1 in
      rw (e, p) ((λ z. ap (λ t. y ∷ t) (rest.0 z)), (λ q. rest.1 (ap (drop 1) q)))
  | inr e ↦ rw e (
    (λ z. absurd (ground (arith, e, z))),
    (λ q. absurd ((==_false_iff x y).0 e (ap (λ l. get_or l 0 0) q))),
  )
]

-- strcmp of two C strings gives 0 exactly when they are equal.
pub strcmp_iff :
    (xs ys : List ℕ) → NoNul xs → NoNul ys → (is_zero (strcmp xs ys) ≡ true) ↔ (xs ≡ ys)
unfolding strcmp
strcmp_iff [] [] hx hy = ((λ e. refl), (λ e. refl))
strcmp_iff [] (y ∷ ys) hx hy =
    ((λ e. absurd (ground (arith, e, hy.0))), (λ e. absurd (omega (arith, ap length e))))
strcmp_iff (x ∷ xs) [] hx hy =
    ((λ e. absurd (ground (arith, e, hx.0))), (λ e. absurd (omega (arith, ap length e))))
strcmp_iff (x ∷ xs) (y ∷ ys) hx hy = elim (Bool-cases (x == y)) [
  | inl e ↦
      let p : x ≡ y = (==_iff x y).0 e in
      let rest = strcmp_iff xs ys hx.1 hy.1 in
      rw (e, p) ((λ z. ap (λ t. y ∷ t) (rest.0 z)), (λ q. rest.1 (ap (drop 1) q)))
  | inr e ↦ rw e (
    (λ z. absurd (ground (arith, e, z))),
    (λ q. absurd ((==_false_iff x y).0 e (ap (λ l. get_or l 0 0) q))),
  )
]
