-- ===== src/Cmos/Checksum.antt =====
-- The check sum over the CMOS bytes.
use cobalt_rom.Prelude.{
  ℕ, zero, suc, ◌+◌, ◌*◌, ◌/◌, ◌%◌, ◌^◌, ◌≤◌, ◌<◌, ◌≡◌, ◌≢◌, refl, ◌∙◌, ap, true, ◌||◌, ◌==◌,
  ==_iff, if◌then◌else◌, bit_or, arith,
}
use cobalt_rom.Prelude.Bits.{bit_or-join}
use cobalt_rom.Cmos.{
  Nvram, read_byte, write_byte, sum_bytes, check_checksum, set_checksum, checksum_place, info_max,
}

pub read_byte-write_byte :
    (i v : ℕ) (c : Nvram) → i ≤ info_max → read_byte i (write_byte i v c) ≡ v % 256
unfolding read_byte write_byte
read_byte-write_byte i v c h = ground arith

pub read_byte-write_byte_ne :
    (i j v : ℕ) (c : Nvram) → j ≢ i → read_byte j (write_byte i v c) ≡ read_byte j c
unfolding read_byte write_byte
read_byte-write_byte_ne i j v c h = ground arith

pub read_byte-lt : (i : ℕ) (c : Nvram) → read_byte i c < 256
unfolding read_byte
read_byte-lt i c = ground arith

-- Contents that agree outside the two bytes of the check sum have one sum.
abbrev pub Agree : Nvram → Nvram → Type 0
Agree c c' = (j : ℕ) → j ≢ checksum_place → j ≢ checksum_place + 1 → read_byte j c' ≡ read_byte j c

sum_bytes-Agree :
    (n i sum : ℕ) (c c' : Nvram) → Agree c c' → sum_bytes n i c' sum ≡ sum_bytes n i c sum
unfolding sum_bytes
sum_bytes-Agree zero i sum c c' h = refl
sum_bytes-Agree (suc n) i sum c c' h = step ∙ sum_bytes-Agree n (i + 1) _ c c' h
  where
    step :
        sum_bytes (suc n) i c' sum
        ≡ sum_bytes n (i + 1) c' (
            if (i == checksum_place) || (i == checksum_place + 1)
            then sum
            else (sum + read_byte i c) % 2 ^ 16)
    step = unfold sum_bytes in ap (sum_bytes n (i + 1) c') (ground (arith, h i))

sum_bytes-lt : (n i sum : ℕ) (c : Nvram) → sum < 2 ^ 16 → sum_bytes n i c sum < 2 ^ 16
unfolding sum_bytes
sum_bytes-lt zero i sum c h = h
sum_bytes-lt (suc n) i sum c h = sum_bytes-lt n (i + 1) _ c (ground arith)

pub set_checksum-Agree : (c : Nvram) → Agree c (set_checksum c)
unfolding set_checksum
set_checksum-Agree c j h h' = read_byte-write_byte_ne _ j _ _ h' ∙ read_byte-write_byte_ne _ j _ c h

-- After cmos_set_checksum the check passes, whatever the bytes are.
pub check_checksum-set_checksum : (c : Nvram) → check_checksum (set_checksum c) ≡ true
unfolding check_checksum
check_checksum-set_checksum c =
    (==_iff _ _).1
      (rw (sum_bytes-Agree 114 14 0 c (set_checksum c) (set_checksum-Agree c), high, low) joined)
  where
    total : ℕ
    total = sum_bytes 114 14 c 0

    high : read_byte checksum_place (set_checksum c) ≡ total / 2 ^ 8 % 256
    high =
        unfold set_checksum in
        read_byte-write_byte_ne 47 46 _ _ (λ e. omega (arith, e))
        ∙ read_byte-write_byte 46 _ c (omega arith)

    low : read_byte (checksum_place + 1) (set_checksum c) ≡ total % 256 % 256
    low = unfold set_checksum in read_byte-write_byte 47 _ _ (omega arith)

    joined : total % 2 ^ 16 ≡ bit_or (total / 2 ^ 8 % 256 * 2 ^ 8) (total % 256 % 256)
    joined = omega (
      arith,
      bit_or-join 8 (total / 2 ^ 8 % 256) (total % 256 % 256) (omega arith),
      sum_bytes-lt 114 14 0 c (omega arith),
    )
