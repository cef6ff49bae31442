-- ===== src/Prelude/Bits.antt =====
-- Single bits of a number, and the native bit operations read bit by bit.
use Prim.Native.Nat.{
  ℕ, zero, suc, ◌+◌, ◌-◌, ◌*◌, ◌/◌, ◌%◌, ◌^◌, ◌≤◌, ◌<◌, min, max, bit_and, bit_or, digits,
  bit_and-bitwise, bit_or-bitwise,
}
use mathlib.Core.Path.{◌≡◌, refl, ap}
use mathlib.Core.Logic.{◌≢◌}
use mathlib.Core.Bool.{Bool, true, ◌&&◌}
use native.Mathlib.Nat.{le_refl, pow-suc, one-le-pow}
use native.Mathlib.Omega.{arith}
use cobalt_rom.Prelude.Tests.{◌==◌, ==_iff, ltb, if◌then◌else◌}

-- Bit `j` of `a`, as 0 or 1.
abbrev pub test_bit : ℕ → ℕ → ℕ
test_bit a zero = a % 2
test_bit a (suc j) = test_bit (a / 2) j

-- Two amounts of fuel that both suffice give one result.
module _ (z : ℕ → ℕ) (f : ℕ → ℕ → ℕ) where
  fuel_irrelevant : (n m a b : ℕ) → a ≤ n → a ≤ m → digits z f n a b ≡ digits z f m a b
  fuel_irrelevant zero zero a b p q = refl
  fuel_irrelevant zero (suc m) zero b p q = refl
  fuel_irrelevant (suc n) zero zero b p q = refl
  fuel_irrelevant (suc n) (suc m) zero b p q = refl
  fuel_irrelevant zero (suc m) (suc a) b p q = absurd (omega arith)
  fuel_irrelevant (suc n) zero (suc a) b p q = absurd (omega arith)
  fuel_irrelevant (suc n) (suc m) (suc a) b p q =
      rw (fuel_irrelevant n m (suc a / 2) (b / 2) (omega arith) (omega arith))

pub bit_or-halves : (a b : ℕ) → bit_or a b ≡ bit_or (a / 2) (b / 2) * 2 + max (a % 2) (b % 2)
bit_or-halves zero b = simp bit_or-bitwise (omega arith)
bit_or-halves (suc a) b = simp bit_or-bitwise (
    omega (
      arith,
      fuel_irrelevant (λ y. y) max a (suc a / 2) (suc a / 2) (b / 2) (omega arith) (le_refl _),
    ))

pub bit_and-halves : (a b : ℕ) → bit_and a b ≡ bit_and (a / 2) (b / 2) * 2 + min (a % 2) (b % 2)
bit_and-halves zero b = simp bit_and-bitwise (omega arith)
bit_and-halves (suc a) b = simp bit_and-bitwise (
    omega (
      arith,
      fuel_irrelevant (λ y. 0) min a (suc a / 2) (suc a / 2) (b / 2) (omega arith) (le_refl _),
    ))

pub test_bit-or : (j a b : ℕ) → test_bit (bit_or a b) j ≡ max (test_bit a j) (test_bit b j)
test_bit-or zero a b = omega (arith, bit_or-halves a b)
test_bit-or (suc j) a b =
    let h : bit_or a b / 2 ≡ bit_or (a / 2) (b / 2) = omega (arith, bit_or-halves a b) in
    rw h (test_bit-or j (a / 2) (b / 2))

pub test_bit-and : (j a b : ℕ) → test_bit (bit_and a b) j ≡ min (test_bit a j) (test_bit b j)
test_bit-and zero a b = omega (arith, bit_and-halves a b)
test_bit-and (suc j) a b =
    let h : bit_and a b / 2 ≡ bit_and (a / 2) (b / 2) = omega (arith, bit_and-halves a b) in
    rw h (test_bit-and j (a / 2) (b / 2))

pub test_bit-le : (a j : ℕ) → test_bit a j ≤ 1
test_bit-le a zero = omega arith
test_bit-le a (suc j) = test_bit-le (a / 2) j

-- The mask `1 << k` has bit `k` alone.
pub test_bit-zero : (j : ℕ) → test_bit 0 j ≡ 0
test_bit-zero zero = refl
test_bit-zero (suc j) = test_bit-zero j

half-two-pow : (k : ℕ) → (2 ^ suc k / 2 ≡ 2 ^ k) × (2 ^ suc k % 2 ≡ 0)
half-two-pow k = omega (arith, pow-suc 2 k)

pub test_bit-mask_self : (k : ℕ) → test_bit (2 ^ k) k ≡ 1
test_bit-mask_self zero = refl
test_bit-mask_self (suc k) = rw ((half-two-pow k).0) (test_bit-mask_self k)

pub test_bit-mask_ne : (k j : ℕ) → j ≢ k → test_bit (2 ^ k) j ≡ 0
test_bit-mask_ne zero zero h = absurd (h refl)
test_bit-mask_ne zero (suc j) h = test_bit-zero j
test_bit-mask_ne (suc k) zero h = (half-two-pow k).1
test_bit-mask_ne (suc k) (suc j) h =
    rw ((half-two-pow k).0) (test_bit-mask_ne k j (λ e. h (ap suc e)))

bit_and-zero : (n a : ℕ) → a ≤ n → bit_and a 0 ≡ 0
bit_and-zero n zero h = refl
bit_and-zero zero (suc a) h = absurd (omega arith)
bit_and-zero (suc n) (suc a) h =
    omega (arith, bit_and-halves (suc a) 0, bit_and-zero n (suc a / 2) (omega arith))

-- `a & (1 << k)` is bit `k` in its place.
pub bit_and-mask : (k a : ℕ) → bit_and a (2 ^ k) ≡ test_bit a k * 2 ^ k
bit_and-mask zero a = omega (arith, bit_and-halves a 1, bit_and-zero (a / 2) (a / 2) (le_refl _))
bit_and-mask (suc k) a = omega (
  arith,
  bit_and-halves a (2 ^ suc k),
  ap (λ t. bit_and (a / 2) t) ((half-two-pow k).0),
  (half-two-pow k).1,
  bit_and-mask k (a / 2),
  ap (λ (t : ℕ). test_bit (a / 2) k * t) (pow-suc 2 k),
)

-- The test `(a & (1 << k)) == 0` of the C code reads bit `k`.
pub mask_test : (k a : ℕ) → (bit_and a (2 ^ k) == 0) ≡ (test_bit a k == 0)
mask_test k a =
    ground (arith, bit_and-mask k a, test_bit-le a k, one-le-pow k 2, cases (test_bit a k) (2 ^ k))
  where
    cases : (t p : ℕ) → (t ≡ 1 → t * p ≡ p) × (t ≡ 0 → t * p ≡ 0)
    cases t p = ((λ e. rw e (omega arith)), (λ e. rw e (omega arith)))

-- Both operations stay below a power of two that bounds their arguments.
pub bit_or-lt : (n a b : ℕ) → a < 2 ^ n → b < 2 ^ n → bit_or a b < 2 ^ n
bit_or-lt zero a b h k =
    let ha : a ≡ 0 = omega arith in let hb : b ≡ 0 = omega arith in rw (ha, hb) (omega arith)
bit_or-lt (suc n) a b h k = omega (
  arith,
  bit_or-halves a b,
  pow-suc 2 n,
  bit_or-lt n (a / 2) (b / 2) (omega (arith, pow-suc 2 n)) (omega (arith, pow-suc 2 n)),
)

pub bit_and-le : (n a b : ℕ) → a ≤ n → bit_and a b ≤ a
bit_and-le n zero b h = omega (arith, bit_and-bitwise 0 b)
bit_and-le zero (suc a) b h = absurd (omega arith)
bit_and-le (suc n) (suc a) b h =
    omega (arith, bit_and-halves (suc a) b, bit_and-le n (suc a / 2) (b / 2) (omega arith))

-- Facts about bytes by a look at every byte.
unfoldable pub all_below : ℕ → (ℕ → Bool) → Bool
all_below zero p = true
all_below (suc n) p = p n && all_below n p

pub all_below-true : (n : ℕ) (p : ℕ → Bool) (x : ℕ) → all_below n p ≡ true → x < n → p x ≡ true
unfolding all_below
all_below-true zero p x h lt = absurd (omega arith)
all_below-true (suc n) p x h lt = ground (arith, all_below-true n p x)

-- The complement of a one-bit mask, cut to a byte.
complement_table :
    all_below 8 (λ k. all_below 8 (λ j. test_bit (255 - 2 ^ k) j == (if j == k then 0 else 1)))
    ≡ true
unfolding all_below
complement_table = refl

pub test_bit-complement :
    (k j : ℕ) → k < 8 → j < 8 → test_bit (255 - 2 ^ k) j ≡ (if j == k then 0 else 1)
test_bit-complement k j hk hj =
    (==_iff _ _).0 (all_below-true 8 _ j (all_below-true 8 _ k complement_table hk) hj)

mask_table : all_below 8 (λ k. ltb (2 ^ k) 256) ≡ true
unfolding all_below
mask_table = refl

pub two-pow-lt-byte : (k : ℕ) → k < 8 → 2 ^ k < 256
two-pow-lt-byte k h = ground (arith, all_below-true 8 (λ j. ltb (2 ^ j) 256) k mask_table h)

one_bits_table : all_below 8 (λ j. test_bit 255 j == 1) ≡ true
unfolding all_below
one_bits_table = refl

-- Every bit of 0xff is set.
pub test_bit-full : (j : ℕ) → j < 8 → test_bit 255 j ≡ 1
test_bit-full j h =
    (==_iff (test_bit 255 j) 1).0 (all_below-true 8 (λ i. test_bit 255 i == 1) j one_bits_table h)

bit_or-zero : (n a : ℕ) → a ≤ n → bit_or a 0 ≡ a
bit_or-zero n zero h = refl
bit_or-zero zero (suc a) h = absurd (omega arith)
bit_or-zero (suc n) (suc a) h =
    omega (arith, bit_or-halves (suc a) 0, bit_or-zero n (suc a / 2) (omega arith))

-- `(a << k) | b` joins two fields that do not meet.
pub bit_or-join : (k a b : ℕ) → b < 2 ^ k → bit_or (a * 2 ^ k) b ≡ a * 2 ^ k + b
bit_or-join zero a b h =
    let e : b ≡ 0 = omega arith in rw e (omega (arith, bit_or-zero (a * 1) (a * 1) (le_refl _)))
bit_or-join (suc k) a b h = omega (
  arith,
  bit_or-halves (a * 2 ^ suc k) b,
  double,
  ap (λ t. bit_or t (b / 2)) half,
  bit_or-join k a (b / 2) (omega (arith, pow-suc 2 k)),
)
  where
    double : a * 2 ^ suc k ≡ a * 2 ^ k * 2
    double = rw (pow-suc 2 k) (omega arith)

    half : a * 2 ^ suc k / 2 ≡ a * 2 ^ k
    half = omega (arith, double)
