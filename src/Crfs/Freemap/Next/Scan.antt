-- ===== src/Crfs/Freemap/Next/Scan.antt =====
-- The two loops of `freemap_next`.
use cobalt_rom.Prelude.{
  ℕ, zero, suc, ◌+◌, ◌*◌, ◌/◌, ◌%◌, ◌^◌, ◌≤◌, ◌<◌, bit_and, bit_or, ◌≡◌, refl, sym, ◌∙◌, ap, Bool,
  true, false, Option, none, some, get_or, set, ◌==◌, ◌||◌, Bool-cases, Option-cases, inl, inr,
  ==_iff, leb, if◌then◌else◌, arith,
}
use cobalt_rom.Prelude.Bits.{
  test_bit, mask_test, test_bit-le, test_bit-full, all_below, all_below-true, bit_or-lt,
}
use cobalt_rom.Crfs.Freemap.{Freemap, char_bit, busy_byte, first_clear, scan, mark}
use cobalt_rom.Crfs.Freemap.Bit.{busy, busy_lem}

is_some : Option ℕ → Bool
is_some none = false
is_some (some j) = true

first_clear_table : all_below 256 (λ v. (v == 255) || is_some (first_clear char_bit 0 v)) ≡ true
unfolding all_below first_clear is_some
first_clear_table = refl

-- A byte that is not 0xff has a clear bit.
first_clear-ne-none : (v : ℕ) → v < 256 → v == 255 ≡ false → first_clear char_bit 0 v ≡ none → ⊥
unfolding is_some
first_clear-ne-none v h ne e =
    let t : ((v == 255) || is_some (first_clear char_bit 0 v)) ≡ true =
      all_below-true 256 (λ v. (v == 255) || is_some (first_clear char_bit 0 v)) v first_clear_table
        h in
    let t' : ((v == 255) || is_some none) ≡ true = rw e at t in ground arith

-- The bit that the inner loop stops at is clear, and those that it passed are set.
record Cleared (n j v r : ℕ) : Type 0 where
  low : j ≤ r
  high : r < j + n
  clear : test_bit v r ≡ 0
  passed : (k : ℕ) → j ≤ k → k < r → test_bit v k ≡ 1

first_clear-suc :
    (n j v : ℕ)
    → first_clear (suc n) j v ≡ (if bit_and v (2 ^ j) == 0 then some j else first_clear n (j + 1) v)
unfolding first_clear
first_clear-suc n j v = ground arith

first_clear-some : (n j v r : ℕ) → first_clear n j v ≡ some r → Cleared n j v r
first_clear-some zero j v r e = absurd (unfold first_clear in cc e)
first_clear-some (suc n) j v r e = elim (Bool-cases (bit_and v (2 ^ j) == 0)) [
  | inl z ↦
      let at_j : j ≡ r = ground (arith, first_clear-suc n j v) in
      rw (← at_j) (record {
        low = omega arith;
        high = omega arith;
        clear = (==_iff (test_bit v j) 0).0 (sym (mask_test j v) ∙ z);
        passed = λ k lo hi. absurd (omega arith);
      })
  | inr nz ↦
      let rest : Cleared n (j + 1) v r =
        first_clear-some n (j + 1) v r (ground (arith, first_clear-suc n j v)) in
      record {
        low = omega (arith, rest.low);
        high = omega (arith, rest.high);
        clear = rest.clear;
        passed = λ k lo hi. elim (Bool-cases (leb (j + 1) k)) [
          | inl later ↦ rest.passed k (ground arith) hi
          | inr first ↦
              let at_j : j ≡ k = ground arith in
              rw (← at_j) (ground (arith, sym (mask_test j v) ∙ nz, test_bit-le v j))
        ];
      }
]

-- `freemap_next` took bit `b` of `m`, which was the lowest that is not busy, and left `m'`.
pub record Took (m : Freemap) (b : ℕ) (m' : Freemap) : Type 0 where
  pub room : b < m.mapsize * char_bit
  pub free : busy m b ≡ 0
  pub lowest : (c : ℕ) → c < b → busy m c ≡ 1
  pub result : m' ≡ record (mark m b) { cur = b / char_bit }

module _ (m : Freemap) (map_bytes : (k : ℕ) → get_or m.map k 0 < 256)
    (freed_bytes : (k : ℕ) → get_or m.freed k 0 < 256) where
  busy_byte-lt : (i : ℕ) → busy_byte m i < 256
  busy_byte-lt i = bit_or-lt 8 _ _ (map_bytes i) (freed_bytes i)

  -- A byte 0xff extends the busy bits before `i` by eight.
  before_suc :
      (i : ℕ)
      → ((c : ℕ) → c < i * 8 → busy m c ≡ 1)
      → busy_byte m i ≡ 255
      → (c : ℕ) → c < (i + 1) * 8
      → busy m c ≡ 1
  before_suc i before full c h = elim (Bool-cases (leb (i * 8) c)) [
    | inr lo ↦ before c (ground arith)
    | inl hi ↦
        let q : c / 8 ≡ i = ground arith in
        sym (busy_lem m c) ∙ rw (q, full) (test_bit-full (c % 8) (omega arith))
  ]

  -- Where the scan stops.
  Took-here :
      (i j : ℕ)
      → i < m.mapsize
      → ((c : ℕ) → c < i * 8 → busy m c ≡ 1)
      → Cleared 8 0 (busy_byte m i) j
      → Took m
          (i * 8 + j)
          (record m { map = set m.map i (bit_or (get_or m.map i 0) (2 ^ j)); cur = i })
  Took-here i j h before found = record {
    room = omega (arith, found.high);
    free = sym (busy_lem m (i * 8 + j)) ∙ rw (quot, rem) found.clear;
    lowest = λ c hc. elim (Bool-cases (leb (i * 8) c)) [
      | inr lo ↦ before c (ground arith)
      | inl hi ↦
          let q : c / 8 ≡ i = omega (arith, found.high, le c hi) in
          sym (busy_lem m c) ∙ rw q (found.passed (c % 8) (omega arith) (omega (arith, le c hi)))
    ];
    result = unfold mark in rw (quot, rem) refl;
  }
    where
      quot : (i * 8 + j) / 8 ≡ i
      quot = omega (arith, found.high)

      rem : (i * 8 + j) % 8 ≡ j
      rem = omega (arith, found.high)

      le : (c : ℕ) → leb (i * 8) c ≡ true → i * 8 ≤ c
      le c p = ground arith

scan-full :
    (n i : ℕ) (m : Freemap)
    → busy_byte m i == 255 ≡ true
    → scan (suc n) i m ≡ scan n (i + 1) (record m { cur = m.cur + 1 })
unfolding scan
scan-full n i m e = ground (arith, e)

scan-found :
    (n i j : ℕ) (m : Freemap)
    → busy_byte m i == 255 ≡ false
    → first_clear 8 0 (busy_byte m i) ≡ some j
    → scan (suc n) i m ≡ (
      some (i * 8 + j),
      record m { map = set m.map i (bit_or (get_or m.map i 0) (2 ^ j)); cur = i },
    )
unfolding scan
scan-found n i j m e f = ground (arith, e, f)

Took-cur : (m : Freemap) (k b : ℕ) (m' : Freemap) → Took (record m { cur = k }) b m' → Took m b m'
unfolding mark
Took-cur m k b m' t = record { room = t.room; free = t.free; lowest = t.lowest; result = t.result }

-- The scan from byte `i` with `n` rounds left, when all bits before `i` are busy.
pub scan-some :
    (n i : ℕ) (m : Freemap) (b : ℕ) (m' : Freemap)
    → ((k : ℕ) → get_or m.map k 0 < 256)
    → ((k : ℕ) → get_or m.freed k 0 < 256)
    → ((c : ℕ) → c < i * 8 → busy m c ≡ 1)
    → i + n ≡ m.mapsize
    → scan n i m ≡ (some b, m')
    → Took m b m'
scan-some zero i m b m' mb fb before e h = absurd (unfold scan in cc h)
scan-some (suc n) i m b m' mb fb before e h = elim (Bool-cases (busy_byte m i == 255)) [
  | inl full ↦ Took-cur m (m.cur + 1) b m' (
      scan-some n (i + 1) (record m { cur = m.cur + 1 }) b m' mb fb
        (before_suc m mb fb i before ((==_iff _ _).0 full)) (omega arith)
        (sym (scan-full n i m full) ∙ h))
  | inr not_full ↦ elim (Option-cases (first_clear 8 0 (busy_byte m i))) [
    | inl stuck ↦ absurd (first_clear-ne-none _ (busy_byte-lt m mb fb i) not_full stuck)
    | inr (j, found) ↦
        let e' : (
          some (i * 8 + j),
          record m { map = set m.map i (bit_or (get_or m.map i 0) (2 ^ j)); cur = i },
        )
            ≡ (some b, m') =
          sym (scan-found n i j m not_full found) ∙ h in
        let eb : i * 8 + j ≡ b = ground (arith, e') in
        let em : record m { map = set m.map i (bit_or (get_or m.map i 0) (2 ^ j)); cur = i } ≡ m' =
          ap (λ t. t.1) e' in
        rw (← eb, ← em)
          (Took-here m mb fb i j (omega arith) before (first_clear-some 8 0 _ j found))
  ]
]

pub scan-none :
    (n i : ℕ) (m : Freemap)
    → ((k : ℕ) → get_or m.map k 0 < 256)
    → ((k : ℕ) → get_or m.freed k 0 < 256)
    → ((c : ℕ) → c < i * 8 → busy m c ≡ 1)
    → i + n ≡ m.mapsize
    → (scan n i m).0 ≡ none
    → (c : ℕ) → c < m.mapsize * 8
    → busy m c ≡ 1
scan-none zero i m mb fb before e h c hc = before c (omega arith)
scan-none (suc n) i m mb fb before e h c hc = elim (Bool-cases (busy_byte m i == 255)) [
  | inl full ↦
      scan-none n (i + 1) (record m { cur = m.cur + 1 }) mb fb
        (before_suc m mb fb i before ((==_iff _ _).0 full)) (omega arith)
        (ap (λ t. t.0) (sym (scan-full n i m full)) ∙ h) c hc
  | inr not_full ↦ elim (Option-cases (first_clear 8 0 (busy_byte m i))) [
    | inl stuck ↦ absurd (first_clear-ne-none _ (busy_byte-lt m mb fb i) not_full stuck)
    | inr (j, found) ↦ absurd (ground (arith, scan-found n i j m not_full found))
  ]
]

-- A scan that finds nothing has moved `fm_cur` past every byte, and changed nothing else.
pub scan-none_state :
    (n i : ℕ) (m : Freemap)
    → ((k : ℕ) → get_or m.map k 0 < 256)
    → ((k : ℕ) → get_or m.freed k 0 < 256)
    → (scan n i m).0 ≡ none
    → (scan n i m).1 ≡ record m { cur = m.cur + n }
scan-none_state zero i m mb fb h = unfold scan in ap (λ k. record m { cur = k }) (omega arith)
scan-none_state (suc n) i m mb fb h = elim (Bool-cases (busy_byte m i == 255)) [
  | inl full ↦ rw (scan-full n i m full) (
      scan-none_state n (i + 1) (record m { cur = m.cur + 1 }) mb fb
        (ap (λ t. t.0) (sym (scan-full n i m full)) ∙ h)
      ∙ ap (λ k. record m { cur = k }) (omega arith))
  | inr not_full ↦ elim (Option-cases (first_clear 8 0 (busy_byte m i))) [
    | inl stuck ↦ absurd (first_clear-ne-none _ (busy_byte-lt m mb fb i) not_full stuck)
    | inr (j, found) ↦ absurd (ground (arith, scan-found n i j m not_full found))
  ]
]
