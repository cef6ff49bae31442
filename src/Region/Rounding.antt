-- ===== src/Region/Rounding.antt =====
-- `roundup2` rounds up to a power of two.
use cobalt_rom.Prelude.{
  ℕ, zero, suc, ◌+◌, ◌*◌, ◌/◌, ◌%◌, ◌^◌, ◌≤◌, ◌<◌, ◌≡◌, ◌⊎◌, refl, ◌∙◌, ◌&&◌, ltb, leb, ◌==◌,
  Bool-cases, inl, inr, if◌then◌else◌, arith,
}
use native.Mathlib.Nat.{pow-suc, pow-le-pow_right}
use cobalt_rom.Region.{count_bits, roundup2}

-- The loop counted `len` halvings down to 1, and `aligned` grew unless it met a power of two.
record Counted (n aligned shifts : ℕ) (r : ℕ × ℕ) : Type 0 where
  len : ℕ
  shifted : r.1 ≡ shifts + len + 1
  low : 2 ^ len ≤ n
  high : n < 2 * 2 ^ len
  exact : ((n ≡ 2 ^ len) × (r.0 ≡ aligned)) ⊎ ((2 ^ len < n) × (aligned < r.0))

two-pow-suc : (n : ℕ) → 2 ^ suc n ≡ 2 * 2 ^ n
two-pow-suc n = omega (arith, pow-suc 2 n)

count_bits-suc :
    (k n a s : ℕ)
    → 0 < n
    → count_bits (suc k) n a s
      ≡ count_bits k (n / 2) (if n % 2 == 1 && ltb 1 n then a + 1 else a) (s + 1)
unfolding count_bits
count_bits-suc k n a s h = ground (arith, h)

count_bits-done : (k a s : ℕ) → count_bits k 0 a s ≡ (a, s)
unfolding count_bits
count_bits-done zero a s = refl
count_bits-done (suc k) a s = refl

-- One round of the loop.
halved-Counted :
    (n a a1 s : ℕ) (r : ℕ × ℕ)
    → ((n % 2 ≡ 0) × (a1 ≡ a)) ⊎ ((n % 2 ≡ 1) × (a1 ≡ a + 1))
    → Counted (n / 2) a1 (s + 1) r
    → Counted n a s r
halved-Counted n a a1 s r par ih = record {
  len = suc ih.len;
  shifted = omega (arith, ih.shifted);
  low = omega (arith, two-pow-suc ih.len, ih.low);
  high = omega (arith, two-pow-suc ih.len, ih.high);
  exact = elim ih.exact [
    | inl (p, q) ↦ elim par [
      | inl (x, y) ↦ inl (omega (arith, two-pow-suc ih.len, p, x), q ∙ y)
      | inr (x, y) ↦ inr (omega (arith, two-pow-suc ih.len, p, x), omega (arith, q, y))
    ]
    | inr (p, q) ↦ inr (
      omega (arith, two-pow-suc ih.len, p),
      elim par [ inl (x, y) ↦ omega (arith, q, y) | inr (x, y) ↦ omega (arith, q, y) ],
    )
  ];
}

odd_cases :
    (n a : ℕ)
    → 2 ≤ n
    → ((n % 2 ≡ 0) × ((if n % 2 == 1 && ltb 1 n then a + 1 else a) ≡ a))
      ⊎ ((n % 2 ≡ 1) × ((if n % 2 == 1 && ltb 1 n then a + 1 else a) ≡ a + 1))
odd_cases n a h = elim (Bool-cases (n % 2 == 1)) [
  | inl e ↦ inr (ground (arith, e), ground (arith, e, h))
  | inr e ↦ inl (ground (arith, e), ground (arith, e, h))
]

count_bits-Counted : (k n a s : ℕ) → 0 < n → n < 2 ^ k → Counted n a s (count_bits k n a s)
count_bits-Counted zero n a s pos fits = absurd (omega (arith, pos, fits))
count_bits-Counted (suc k) n a s pos fits = elim (Bool-cases (leb 2 n)) [
  | inr small ↦
      let one : n ≡ 1 = ground (arith, pos, small) in
      rw (one, count_bits-suc k 1 a s (omega arith), count_bits-done k a (s + 1))
        (record {
          len = 0;
          shifted = omega arith;
          low = omega arith;
          high = omega arith;
          exact = inl (refl, refl);
        })
  | inl large ↦
      let two : 2 ≤ n = ground (arith, large) in
      rw (count_bits-suc k n a s pos) (
        halved-Counted n a _ s _ (odd_cases n a two) (
          count_bits-Counted k (n / 2) (if n % 2 == 1 && ltb 1 n then a + 1 else a) (s + 1)
            (omega (arith, two)) (omega (arith, fits, two-pow-suc k))))
]

short_len : (len num : ℕ) → 2 ^ len < num → num ≤ 2 ^ 31 → len < 31
short_len len num h fits = elim (Bool-cases (ltb len 31)) [
  | inl e ↦ ground (arith, e)
  | inr e ↦
      let grown : 2 ^ 31 ≤ 2 ^ len = pow-le-pow_right (omega arith) {i = 31} (ground (arith, e)) in
      absurd (omega (arith, h, fits, grown))
]

-- `roundup2` of a size from 1 to 2 ^ 31 is a power of two that is not less than the size and less
-- than twice the size.
pub roundup2_lem :
    (num : ℕ)
    → 0 < num
    → num ≤ 2 ^ 31
    → (k : ℕ) × (roundup2 num ≡ 2 ^ k) × (num ≤ roundup2 num) × (roundup2 num < 2 * num)
unfolding roundup2
roundup2_lem num pos fits =
    go (count_bits 32 num 0 0) (count_bits-Counted 32 num 0 0 pos (omega (arith, fits)))
  where
    go :
        (r : ℕ × ℕ)
        → Counted num 0 0 r
        → (k : ℕ) × ((if r.0 == 0 then num else 2 ^ (r.1 % 32)) ≡ 2 ^ k)
          × (num ≤ (if r.0 == 0 then num else 2 ^ (r.1 % 32)))
          × ((if r.0 == 0 then num else 2 ^ (r.1 % 32)) < 2 * num)
    go r c = elim c.exact [
      | inl (p, q) ↦ rw q (c.len, p, omega arith, omega (arith, pos))
      | inr (p, q) ↦
          let up : (if r.0 == 0 then num else 2 ^ (r.1 % 32)) ≡ 2 ^ suc c.len =
            larger r c q (short_len c.len num p fits) in
          rw up (
            suc c.len,
            refl,
            omega (arith, c.high, two-pow-suc c.len),
            omega (arith, p, two-pow-suc c.len),
          )
    ]
      where
        larger :
            (r : ℕ × ℕ) (c : Counted num 0 0 r)
            → 0 < r.0
            → c.len < 31
            → (if r.0 == 0 then num else 2 ^ (r.1 % 32)) ≡ 2 ^ suc c.len
        larger r c q short =
            let e : r.1 % 32 ≡ suc c.len = omega (arith, c.shifted, short) in
            rw e (ground (arith, q))
