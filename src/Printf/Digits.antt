-- ===== src/Printf/Digits.antt =====
-- The digits that sprintf_num writes, read by the loops of stoli.
use cobalt_rom.Prelude.{
  ℕ, zero, suc, ◌+◌, ◌*◌, ◌/◌, ◌%◌, ◌^◌, ◌≤◌, ◌<◌, ◌≡◌, refl, ◌∙◌, ap, inl, inr, true, Bool-cases,
  some, ◌==◌, ==_iff, List, [], ◌∷◌, length, get_or, arith,
}
use native.Mathlib.Nat.{pow-zero}
use cobalt_rom.Text.{isxdigit}
use cobalt_rom.Printf.{more_digits, digits, nbuf_chars}

abbrev pub AllDigits : List ℕ → Type 0
AllDigits [] = Unit {0}
AllDigits (c ∷ cs) = (isxdigit c ≡ true) × AllDigits cs

-- What a scan reads of the digits of `n` and the characters after them.
abbrev Scanned : (List ℕ → ℕ → ℕ × ℕ) → List ℕ → List ℕ → ℕ → ℕ → Type 0
Scanned scan r out n k =
    (scan r 0 ≡ scan out n)
    × (length r ≤ length out + k)
    × (length out ≤ length r)
    × (AllDigits out → AllDigits r)

-- A scan of digits in a base, and what the division by the base does.
module _ (scan : List ℕ → ℕ → ℕ × ℕ) (chars : List ℕ) (base : ℕ)
    (one : (d a : ℕ) (out : List ℕ)
      → d < base
      → a * base + d < 2 ^ 32
      → scan (get_or chars d 0 ∷ out) a ≡ scan out (a * base + d))
    (digit : (d : ℕ) → d < base → isxdigit (get_or chars d 0) ≡ true)
    (divide : (n : ℕ) → (n / base * base + n % base ≡ n) × (n % base < base) × (n / base ≤ n))
    (shrink : (n k : ℕ) → n < base ^ suc k → n / base < base ^ k) where
  more_digits_lem :
      (f k n : ℕ) (out : List ℕ)
      → n < base ^ k
      → k < f
      → n < 2 ^ 32
      → (r : List ℕ) × (more_digits f chars base n out ≡ some r) × Scanned scan r out n k
  unfolding more_digits
  more_digits_lem zero k n out lt fuel small = absurd (omega (arith, fuel))
  more_digits_lem (suc f) zero n out lt fuel small =
      let z : n ≡ 0 = omega (arith, pow-zero base, lt) in
      (out, rw z refl, (rw z refl, omega arith, omega arith, λ h. h))
  more_digits_lem (suc f) (suc k) n out lt fuel small =
      let d = divide n in
      let rest =
        more_digits_lem f k (n / base) (get_or chars (n % base) 0 ∷ out) (shrink n k lt)
          (omega (arith, fuel)) (omega (arith, d.2, small)) in
      elim (Bool-cases (n == 0)) [
        | inl e ↦
            let z : n ≡ 0 = (==_iff n 0).0 e in
            (out, rw z refl, (rw z refl, omega arith, omega arith, λ h. h))
        | inr e ↦ (
          rest.0,
          rw e rest.1,
          (
            rest.2.0
                ∙ one (n % base) (n / base) out (d.1) (omega (arith, d.0, small))
                ∙ ap (scan out) (d.0),
            omega (arith, rest.2.1),
            omega (arith, rest.2.2),
            λ h. rest.2.3 (digit (n % base) (d.1), h),
          ),
        )
      ]

  -- The buffer of the code has room for the digits of every 32-bit number.
  pub digits_lem :
      (k n : ℕ)
      → n < base ^ suc k
      → k < nbuf_chars
      → n < 2 ^ 32
      → (r : List ℕ) × (digits chars base n ≡ some r)
        × (scan r 0 ≡ scan [] n)
        × (length r ≤ suc k)
        × (0 < length r)
        × AllDigits r
  unfolding digits
  digits_lem k n lt room small =
      let d = divide n in
      let rest =
        more_digits_lem nbuf_chars k (n / base) (get_or chars (n % base) 0 ∷ []) (shrink n k lt)
          room (omega (arith, d.2, small)) in
      (
        rest.0,
        rest.1,
        rest.2.0
            ∙ one (n % base) (n / base) [] (d.1) (omega (arith, d.0, small))
            ∙ ap (scan []) (d.0),
        omega (arith, rest.2.1),
        omega (arith, rest.2.2),
        rest.2.3 (digit (n % base) (d.1), tt),
      )
