-- ===== src/Crfs/Freemap/Bit.antt =====
-- A freemap seen as two sets of bit numbers, the used ones and those freed since the last flush:
-- what `freemap_mark`, `freemap_unmark`, `freemap_flush` and `freemap_isset` do to them.
use cobalt_rom.Prelude.{
  ℕ, ◌-◌, ◌*◌, ◌/◌, ◌%◌, ◌^◌, ◌≤◌, ◌<◌, bit_and, bit_or, max, ◌≡◌, ◌≢◌, refl, sym, ap, List, length,
  get_or, set, get_or-replicate, get_or-set_self, get_or-set_ne, ◌==◌, Bool-cases, inl, inr, ==_iff,
  ==_false_iff, if◌then◌else◌, arith,
}
use cobalt_rom.Prelude.Bits.{
  test_bit, test_bit-or, test_bit-and, test_bit-le, test_bit-zero, test_bit-mask_self,
  test_bit-mask_ne, test_bit-complement, mask_test,
}
use cobalt_rom.Crfs.Freemap.{Freemap, char_bit, busy_byte, flush, mark, unmark, is_set}

-- Bit `b` of a list of bytes.
abbrev pub bit_at : List ℕ → ℕ → ℕ
bit_at bytes b = test_bit (get_or bytes (b / char_bit) 0) (b % char_bit)

-- 1 if `b` is in use.
abbrev pub used : Freemap → ℕ → ℕ
used m b = bit_at m.map b

-- 1 if `b` has been freed since the last flush.
abbrev pub was_freed : Freemap → ℕ → ℕ
was_freed m b = bit_at m.freed b

-- 1 if `freemap_next` may not return `b`.
abbrev pub busy : Freemap → ℕ → ℕ
busy m b = max (used m b) (was_freed m b)

-- The two lists hold `mapsize` bytes each, and no bit before the byte `fm_cur` is
-- there to hand out.
pub record IsValid (m : Freemap) : Type 0 where
  pub map_size : length m.map ≡ m.mapsize
  pub freed_size : length m.freed ≡ m.mapsize
  pub map_bytes : (i : ℕ) → get_or m.map i 0 < 256
  pub freed_bytes : (i : ℕ) → get_or m.freed i 0 < 256
  pub cur_in : m.cur ≤ m.mapsize
  pub none_before : (b : ℕ) → b < m.cur * char_bit → busy m b ≡ 1

pub busy_lem : (m : Freemap) (b : ℕ) → test_bit (busy_byte m (b / 8)) (b % 8) ≡ busy m b
busy_lem m b = test_bit-or (b % 8) (get_or m.map (b / 8) 0) (get_or m.freed (b / 8) 0)

-- A changed byte changes the bits of that byte.
bit_at-set :
    (xs : List ℕ) (by v b : ℕ)
    → by < length xs
    → bit_at (set xs by v) b ≡ (if b / 8 == by then test_bit v (b % 8) else bit_at xs b)
bit_at-set xs by v b h = elim (Bool-cases (b / 8 == by)) [
  | inl e ↦
      rw (e, (==_iff (b / 8) by).0 e) (ap (λ t. test_bit t (b % 8)) (get_or-set_self xs by v 0 h))
  | inr e ↦ rw e (
      ap (λ t. test_bit t (b % 8))
        (get_or-set_ne xs by (b / 8) v 0 (λ p. (==_false_iff _ _).0 e (omega arith))))
]

-- Bits with one byte and one place in it are one bit.
same_bit : (a b : ℕ) → a / 8 ≡ b / 8 → a % 8 ≡ b % 8 → a ≡ b
same_bit a b p q = omega arith

mod_lt : (b : ℕ) → b % 8 < 8
mod_lt b = omega arith

-- `is_set` is the bit.
pub is_set_lem : (m : Freemap) (b : ℕ) → is_set m b ≡ (used m b == 1)
unfolding is_set
is_set_lem m b = rw mask_test (ground (arith, test_bit-le (get_or m.map (b / 8) 0) (b % 8)))

-- A byte that differs from the old one in one place changes that bit alone.
bit_at-patch :
    (xs : List ℕ) (a v x b : ℕ)
    → a / 8 < length xs
    → test_bit v (a % 8) ≡ x
    → ((j : ℕ) → j < 8 → j ≢ a % 8 → test_bit v j ≡ test_bit (get_or xs (a / 8) 0) j)
    → bit_at (set xs (a / 8) v) b ≡ (if a == b then x else bit_at xs b)
bit_at-patch xs a v x b h self rest =
    rw (bit_at-set xs (a / 8) v b h) (elim (Bool-cases (b / 8 == a / 8)) [
      | inr e ↦ rw e (ground arith)
      | inl e ↦ rw e (elim (Bool-cases (a == b)) [
        | inl p ↦ rw p (rw (← (==_iff a b).0 p) self)
        | inr p ↦ rw p (
            rw (ap (λ t. get_or xs t 0) ((==_iff _ _).0 e)) (
              rest (b % 8) (mod_lt b)
                (λ q. (==_false_iff a b).0 p (same_bit a b (sym ((==_iff _ _).0 e)) (sym q)))))
      ])
    ])

bit_at-set_or :
    (xs : List ℕ) (a b : ℕ)
    → a / 8 < length xs
    → bit_at (set xs (a / 8) (bit_or (get_or xs (a / 8) 0) (2 ^ (a % 8)))) b
      ≡ (if a == b then 1 else bit_at xs b)
bit_at-set_or xs a b h =
    bit_at-patch xs a (bit_or (get_or xs (a / 8) 0) (2 ^ (a % 8))) 1 b h
      (omega (
        arith,
        test_bit-or (a % 8) (get_or xs (a / 8) 0) (2 ^ (a % 8)),
        test_bit-mask_self (a % 8),
        test_bit-le (get_or xs (a / 8) 0) (a % 8),
      ))
      (λ j hj ne.
        omega
          (arith, test_bit-or j (get_or xs (a / 8) 0) (2 ^ (a % 8)), test_bit-mask_ne (a % 8) j ne))

-- On a well formed map, `freemap_mark` of a bit in range puts it into use and changes no other bit
-- in use.
pub used-mark :
    (m : Freemap) (a b : ℕ)
    → IsValid m
    → a < m.mapsize * 8
    → used (mark m a) b ≡ (if a == b then 1 else used m b)
unfolding mark
used-mark m a b v h = bit_at-set_or m.map a b (omega (arith, v.map_size))

-- On a well formed map, `freemap_unmark` of a bit in range takes it out of use and changes no other
-- bit in use.
pub used-unmark :
    (m : Freemap) (a b : ℕ)
    → IsValid m
    → a < m.mapsize * 8
    → used (unmark m a) b ≡ (if a == b then 0 else used m b)
unfolding unmark
used-unmark m a b v h =
    bit_at-patch m.map a (bit_and byte (255 - 2 ^ (a % 8))) 0 b (omega (arith, v.map_size))
      (omega (arith, test_bit-and (a % 8) byte (255 - 2 ^ (a % 8)), masked))
      (λ j hj ne. ground (
        arith,
        test_bit-and j byte (255 - 2 ^ (a % 8)),
        test_bit-complement (a % 8) j (mod_lt a) hj,
        test_bit-le byte j,
      ))
  where
    byte : ℕ
    byte = get_or m.map (a / 8) 0

    masked : test_bit (255 - 2 ^ (a % 8)) (a % 8) ≡ 0
    masked = ground (arith, test_bit-complement (a % 8) (a % 8) (mod_lt a) (mod_lt a))

-- On a well formed map, `freemap_unmark` of a bit in range makes it count as freed if it was in use
-- or freed, and changes this for no other bit.
pub was_freed-unmark :
    (m : Freemap) (a b : ℕ)
    → IsValid m
    → a < m.mapsize * 8
    → was_freed (unmark m a) b ≡ (if a == b then busy m a else was_freed m b)
unfolding unmark
was_freed-unmark m a b v h =
    bit_at-patch m.freed a (bit_or old (bit_and byte (2 ^ (a % 8)))) (busy m a) b
      (omega (arith, v.freed_size))
      (omega (
        arith,
        test_bit-or (a % 8) old (bit_and byte (2 ^ (a % 8))),
        test_bit-and (a % 8) byte (2 ^ (a % 8)),
        test_bit-mask_self (a % 8),
        test_bit-le byte (a % 8),
      ))
      (λ j hj ne. omega (
        arith,
        test_bit-or j old (bit_and byte (2 ^ (a % 8))),
        test_bit-and j byte (2 ^ (a % 8)),
        test_bit-mask_ne (a % 8) j ne,
      ))
  where
    byte : ℕ
    byte = get_or m.map (a / 8) 0

    old : ℕ
    old = get_or m.freed (a / 8) 0

-- Neither bit of `b` is more than 1.
pub used-le : (m : Freemap) (b : ℕ) → used m b ≤ 1
used-le m b = test_bit-le (get_or m.map (b / 8) 0) (b % 8)

pub was_freed-le : (m : Freemap) (b : ℕ) → was_freed m b ≤ 1
was_freed-le m b = test_bit-le (get_or m.freed (b / 8) 0) (b % 8)

pub busy-mark :
    (m : Freemap) (a b : ℕ)
    → IsValid m
    → a < m.mapsize * 8
    → busy (mark m a) b ≡ (if a == b then 1 else busy m b)
busy-mark m a b v h = ground (arith, used-mark m a b v h, same_freed, was_freed-le m b, used-le m b)
  where
    same_freed : was_freed (mark m a) b ≡ was_freed m b
    same_freed = unfold mark in refl

-- A bit that is taken out of use stays busy until the next flush.
pub busy-unmark :
    (m : Freemap) (a b : ℕ) → IsValid m → a < m.mapsize * 8 → busy (unmark m a) b ≡ busy m b
busy-unmark m a b v h =
    ground (arith, used-unmark m a b v h, was_freed-unmark m a b v h, used-le m a, was_freed-le m a)

-- After `freemap_flush` the busy bits are the used ones.
pub busy-flush : (m : Freemap) (b : ℕ) → busy (flush m) b ≡ used m b
unfolding flush
busy-flush m b =
    rw (get_or-replicate {A = ℕ} m.mapsize (b / 8) 0) (omega (arith, test_bit-zero (b % 8)))
