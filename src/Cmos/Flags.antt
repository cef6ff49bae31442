-- ===== src/Cmos/Flags.antt =====
-- The flags in two CMOS bytes: cmos_read_flag and cmos_write_flag.
use cobalt_rom.Prelude.{
  ℕ, ◌-◌, ◌/◌, ◌%◌, ◌^◌, ◌<◌, ◌≡◌, refl, inl, inr, Bool, true, false, not, ◌||◌, ◌&&◌, Bool-cases,
  some, ltb, leb, ◌==◌, ==_iff, ==_false_iff, if◌then◌else◌, bit_or, arith,
}
use cobalt_rom.Prelude.Bits.{
  test_bit, test_bit-or, test_bit-and, test_bit-mask_self, test_bit-mask_ne, test_bit-le, mask_test,
  bit_or-lt, bit_and-le, all_below, all_below-true,
}
use native.Mathlib.Nat.{le_refl}
use cobalt_rom.Cmos.{
  Nvram, write_byte, check_checksum, read_all_flags, write_all_flags, read_flag, write_flag,
  clear_flag, flag_byte_0, flag_byte_1, flag_min, flag_max,
}
use cobalt_rom.Cmos.Checksum.{
  read_byte-write_byte, read_byte-write_byte_ne, read_byte-lt, set_checksum-Agree,
  check_checksum-set_checksum,
}

-- The masks of the header are the powers of two below 2 ^ 12.
masks_table : all_below 12 (λ k. leb flag_min (2 ^ k) && leb (2 ^ k) flag_max) ≡ true
unfolding all_below
masks_table = refl

pub mask_in_range : (k : ℕ) → k < 12 → (ltb (2 ^ k) flag_min || ltb flag_max (2 ^ k)) ≡ false
mask_in_range k h =
    ground
      (arith, all_below-true 12 (λ j. leb flag_min (2 ^ j) && leb (2 ^ j) flag_max) k masks_table h)

complement_table :
    all_below 12
      (λ k. all_below 12 (λ j. test_bit (2 ^ 32 - 1 - 2 ^ k) j == (if j == k then 0 else 1)))
    ≡ true
unfolding all_below
complement_table = refl

test_bit-complement :
    (k j : ℕ) → k < 12 → j < 12 → test_bit (2 ^ 32 - 1 - 2 ^ k) j ≡ (if j == k then 0 else 1)
test_bit-complement k j hk hj =
    (==_iff _ _).0 (all_below-true 12 _ j (all_below-true 12 _ k complement_table hk) hj)

read_all_flags-lt : (c : Nvram) → read_all_flags c < 2 ^ 16
unfolding read_all_flags
read_all_flags-lt c = omega (arith, read_byte-lt flag_byte_0 c, read_byte-lt flag_byte_1 c)

read_all_flags-write_all_flags :
    (f : ℕ) (c : Nvram) → f < 2 ^ 16 → read_all_flags (write_all_flags f c) ≡ f
unfolding read_all_flags write_all_flags
read_all_flags-write_all_flags f c h =
    rw
      (
        set_checksum-Agree high flag_byte_1 (λ e. omega (arith, e)) (λ e. omega (arith, e)),
        set_checksum-Agree high flag_byte_0 (λ e. omega (arith, e)) (λ e. omega (arith, e)),
        read_byte-write_byte flag_byte_0 (f / 256 % 256) low (omega arith),
        read_byte-write_byte_ne flag_byte_0 flag_byte_1 (f / 256 % 256) low (λ e. omega (arith, e)),
        read_byte-write_byte flag_byte_1 (f % 256) c (omega arith),
      )
      (omega arith)
  where
    low : Nvram
    low = write_byte flag_byte_1 (f % 256) c

    high : Nvram
    high = write_byte flag_byte_0 (f / 256 % 256) low

new_flags : ℕ → ℕ → Bool → ℕ
new_flags flags k val = if val then bit_or flags (2 ^ k) else clear_flag flags (2 ^ k)

new_flags-lt : (flags k : ℕ) (val : Bool) → flags < 2 ^ 16 → k < 12 → new_flags flags k val < 2 ^ 16
unfolding new_flags
new_flags-lt flags k true h hk = bit_or-lt 16 flags (2 ^ k) h (ground (arith, mask_in_range k hk))
new_flags-lt flags k false h hk =
    omega (arith, bit_and-le flags flags (2 ^ 32 - 1 - 2 ^ k) (le_refl _))

test_bit-new_flags :
    (flags k j : ℕ) (val : Bool)
    → k < 12
    → j < 12
    → (test_bit (new_flags flags k val) j == 0)
      ≡ (if j == k then not val else test_bit flags j == 0)
unfolding new_flags
test_bit-new_flags flags k j true hk hj = elim (Bool-cases (j == k)) [
  | inl e ↦
      let p : j ≡ k = (==_iff j k).0 e in
      rw (e, test_bit-or j flags (2 ^ k), p, test_bit-mask_self k) (ground arith)
  | inr e ↦
      rw (e, test_bit-or j flags (2 ^ k), test_bit-mask_ne k j ((==_false_iff j k).0 e))
        (ground arith)
]
test_bit-new_flags flags k j false hk hj =
    rw (test_bit-and j flags (2 ^ 32 - 1 - 2 ^ k), test_bit-complement k j hk hj)
      (ground (arith, test_bit-le flags j))

-- For a flag of the header cmos_write_flag succeeds, the check sum is right after it, that flag
-- reads as written, and every other flag reads as before.
pub write_flag_lem :
    (k : ℕ) (val : Bool) (c : Nvram)
    → k < 12
    → (c' : Nvram) × (write_flag (2 ^ k) val c ≡ some c')
      × (check_checksum c' ≡ true)
      × ((j : ℕ)
          → j < 12
          → read_flag (2 ^ j) c' ≡ (if j == k then some val else read_flag (2 ^ j) c))
unfolding write_flag new_flags
write_flag_lem k val c h = (
  write_all_flags flags c,
  rw (mask_in_range k h) refl,
  unfold write_all_flags in check_checksum-set_checksum _,
  reads,
)
  where
    flags : ℕ
    flags = new_flags (read_all_flags c) k val

    flag_reads :
        (j : ℕ) (d : Nvram)
        → j < 12
        → read_flag (2 ^ j) d ≡ some (not (test_bit (read_all_flags d) j == 0))
    flag_reads j d hj =
        unfold read_flag in rw (mask_in_range j hj, mask_test j (read_all_flags d)) refl

    reads :
        (j : ℕ)
        → j < 12
        → read_flag (2 ^ j) (write_all_flags flags c)
          ≡ (if j == k then some val else read_flag (2 ^ j) c)
    reads j hj =
        rw
          (
            flag_reads j (write_all_flags flags c) hj,
            flag_reads j c hj,
            read_all_flags-write_all_flags flags c
                (new_flags-lt (read_all_flags c) k val (read_all_flags-lt c) h),
            test_bit-new_flags (read_all_flags c) k j val h hj,
          )
          (ground arith)
