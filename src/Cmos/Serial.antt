-- ===== src/Cmos/Serial.antt =====
-- The serial number of the machine in the CMOS bytes, x86/common/cmos.c.
use cobalt_rom.Prelude.{
  ℕ, zero, suc, ◌+◌, ◌%◌, ◌^◌, ◌≤◌, ◌<◌, ◌≡◌, ◌≢◌, refl, sym, ◌∙◌, ap, Bool, true, false, ◌&&◌,
  List, [], ◌∷◌, length, get_or, ◌==◌, ==_iff, Bool-cases, inl, inr, if◌then◌else◌, bit_xor, ltb,
  arith,
}
use cobalt_rom.Prelude.Bits.{all_below, all_below-true}
use cobalt_rom.Cmos.{Nvram, read_byte, write_byte, check_checksum, set_checksum}
use cobalt_rom.Cmos.Checksum.{
  read_byte-write_byte, read_byte-write_byte_ne, set_checksum-Agree, check_checksum-set_checksum,
}

abbrev pub serial_len : ℕ
serial_len = 13

abbrev pub serial_place : ℕ
serial_place = 0x40

abbrev pub serial_csum : ℕ
serial_csum = 0x4f

abbrev pub serial_old_csum : ℕ
serial_old_csum = 0xfe

-- "cNoEbTaWlOtR!"
abbrev pub key : List ℕ
key = 99 ∷ 78 ∷ 111 ∷ 69 ∷ 98 ∷ 84 ∷ 97 ∷ 87 ∷ 108 ∷ 79 ∷ 116 ∷ 82 ∷ 33 ∷ []

-- "invalid csum!"
abbrev pub invalid_csum : List ℕ
invalid_csum = 105 ∷ 110 ∷ 118 ∷ 97 ∷ 108 ∷ 105 ∷ 100 ∷ 32 ∷ 99 ∷ 115 ∷ 117 ∷ 109 ∷ 33 ∷ []

-- The loop of cmos_gen_csum, with the rounds that are left.
unfoldable pub key_sum : ℕ → ℕ → List ℕ → ℕ → ℕ
key_sum zero i str sum = sum
key_sum (suc n) i str sum = key_sum n (i + 1) str (sum + bit_xor (get_or str i 0) (get_or key i 0))

-- The sign of a char reaches only bits that `& 0x7f` drops.
unfoldable pub gen_csum : List ℕ → ℕ
gen_csum str = bit_xor (key_sum serial_len 0 str 0 % 2 ^ 7) 0xd6 % 2 ^ 8

-- The calls of cmos_write_byte for the characters from `i` on, and of cmos_read_byte for them.
unfoldable pub write_chars : ℕ → ℕ → List ℕ → Nvram → Nvram
write_chars zero i str c = c
write_chars (suc n) i str c =
    write_chars n (i + 1) str (write_byte (serial_place + i) (get_or str i 0) c)

unfoldable pub read_chars : ℕ → ℕ → Nvram → List ℕ
read_chars zero i c = []
read_chars (suc n) i c = read_byte (serial_place + i) c ∷ read_chars n (i + 1) c

-- `sn` has no NUL, so the copy that the code takes of it is the whole string; the NUL that it then
-- stores in `sn` itself is not read again, nor is `sn`, and is left out.
unfoldable pub write_serial_num : List ℕ → Nvram → Nvram
write_serial_num sn c =
    set_checksum (write_byte serial_csum (gen_csum sn) (write_chars serial_len 0 sn c))

-- The ROM's variant, built with INROM.
unfoldable pub read_serial_num : Bool → Nvram → List ℕ × Nvram
read_serial_num systype_is_3k c =
    let sernum = read_chars serial_len 0 c in
    let read_csum = gen_csum sernum in
    let old_csum = read_byte serial_old_csum c in
    if read_csum == read_byte serial_csum c
    then (sernum, c)
    else if systype_is_3k && (read_csum == old_csum)
    then (sernum, set_checksum (write_byte serial_csum old_csum c))
    else (invalid_csum, c)

csum_table : all_below 128 (λ x. ltb 0 (bit_xor x 0xd6 % 2 ^ 8)) ≡ true
unfolding all_below
csum_table = refl

gen_csum-positive : (str : List ℕ) → 0 < gen_csum str
unfolding gen_csum
gen_csum-positive str = ground (
  arith,
  all_below-true 128 (λ x. ltb 0 (bit_xor x 0xd6 % 2 ^ 8)) (key_sum serial_len 0 str 0 % 2 ^ 7)
      csum_table (omega arith),
)

-- cmos_read_serial_num gives the 13 characters if their check sum is the one stored and the text
-- "invalid csum!" otherwise. It changes no byte of the CMOS memory, also on a 3K system, where the
-- code means to move a check sum from its old place.
pub read_serial_num_lem :
    (systype_is_3k : Bool) (c : Nvram)
    → read_serial_num systype_is_3k c ≡ (
      (if gen_csum (read_chars serial_len 0 c) == read_byte serial_csum c
          then read_chars serial_len 0 c
          else invalid_csum),
      c,
    )
unfolding read_serial_num
read_serial_num_lem true c =
    let old : read_byte serial_old_csum c ≡ 0 = unfold read_byte in refl in
    rw old (ground (arith, gen_csum-positive (read_chars serial_len 0 c)))
read_serial_num_lem false c = ground arith

write_chars_beyond :
    (n i j : ℕ) (str : List ℕ) (c : Nvram)
    → ((k : ℕ) → k < n → j ≢ serial_place + (i + k))
    → read_byte j (write_chars n i str c) ≡ read_byte j c
unfolding write_chars
write_chars_beyond zero i j str c h = refl
write_chars_beyond (suc n) i j str c h =
    write_chars_beyond n (i + 1) j str _
      (λ k lt e. h (suc k) (omega (arith, lt)) (omega (arith, e)))
    ∙ read_byte-write_byte_ne (serial_place + i) j _ c (λ e. h 0 (omega arith) (omega (arith, e)))

write_chars_within :
    (n i j : ℕ) (str : List ℕ) (c : Nvram)
    → i ≤ j
    → j < i + n
    → i + n ≤ serial_len
    → read_byte (serial_place + j) (write_chars n i str c) ≡ get_or str j 0 % 256
unfolding write_chars
write_chars_within zero i j str c lo hi fits = absurd (omega arith)
write_chars_within (suc n) i j str c lo hi fits = elim (Bool-cases (i == j)) [
  | inl e ↦
      let p : i ≡ j = (==_iff i j).0 e in
      write_chars_beyond n (i + 1) (serial_place + j) str _ (λ k lt q. omega (arith, q, p))
      ∙ rw p (read_byte-write_byte (serial_place + j) (get_or str j 0) c (omega arith))
  | inr e ↦ write_chars_within n (i + 1) j str _ (ground arith) (omega arith) (omega arith)
]

-- Every character is a byte.
abbrev pub AreBytes : List ℕ → Type 0
AreBytes [] = Unit {0}
AreBytes (x ∷ xs) = (x < 256) × AreBytes xs

get_or-AreBytes : (xs : List ℕ) (k : ℕ) → AreBytes xs → get_or xs k 0 < 256
get_or-AreBytes [] k h = omega arith
get_or-AreBytes (x ∷ xs) zero h = h.0
get_or-AreBytes (x ∷ xs) (suc k) h = get_or-AreBytes xs k h.1

read_chars-list :
    (i : ℕ) (xs : List ℕ) (c : Nvram)
    → ((k : ℕ) → k < length xs → read_byte (serial_place + (i + k)) c ≡ get_or xs k 0)
    → read_chars (length xs) i c ≡ xs
unfolding read_chars
read_chars-list i [] c h = refl
read_chars-list i (x ∷ xs) c h = rw (first, read_chars-list (i + 1) xs c rest) refl
  where
    first : read_byte (serial_place + i) c ≡ x
    first = ap (λ t. read_byte (serial_place + t) c) (omega arith) ∙ h 0 (omega arith)

    rest : (k : ℕ) → k < length xs → read_byte (serial_place + (i + 1 + k)) c ≡ get_or xs k 0
    rest k lt =
        ap (λ t. read_byte (serial_place + t) c) (omega arith) ∙ h (suc k) (omega (arith, lt))

gen_csum-lt : (str : List ℕ) → gen_csum str < 256
unfolding gen_csum
gen_csum-lt str = omega arith

-- A serial number of 13 bytes that cmos_write_serial_num writes is the one that
-- cmos_read_serial_num gives, on every system, and the check sum of the CMOS memory is right.
pub read_serial_num-write_serial_num :
    (systype_is_3k : Bool) (sn : List ℕ) (c : Nvram)
    → length sn ≡ serial_len
    → AreBytes sn
    → ((read_serial_num systype_is_3k (write_serial_num sn c)).0 ≡ sn)
      × (check_checksum (write_serial_num sn c) ≡ true)
read_serial_num-write_serial_num systype_is_3k sn c len bytes =
    (rw (read_serial_num_lem systype_is_3k c', chars, stored) (ground arith), checks)
  where
    c' : Nvram
    c' = write_serial_num sn c

    written : Nvram
    written = write_byte serial_csum (gen_csum sn) (write_chars serial_len 0 sn c)

    checks : check_checksum c' ≡ true
    checks = unfold write_serial_num in check_checksum-set_checksum written

    at_char : (k : ℕ) → k < length sn → read_byte (serial_place + (0 + k)) c' ≡ get_or sn k 0
    at_char k lt =
        unfold write_serial_num in
        ap (λ t. read_byte (serial_place + t) c') (omega arith)
        ∙ set_checksum-Agree written (serial_place + k) (λ e. omega (arith, e))
            (λ e. omega (arith, e))
        ∙ read_byte-write_byte_ne serial_csum (serial_place + k) _ _
            (λ e. omega (arith, e, lt, len))
        ∙ write_chars_within serial_len 0 k sn c (omega arith) (omega (arith, lt, len))
            (omega arith)
        ∙ omega (arith, get_or-AreBytes sn k bytes)

    chars : read_chars serial_len 0 c' ≡ sn
    chars = ap (λ n. read_chars n 0 c') (sym len) ∙ read_chars-list 0 sn c' at_char

    stored : read_byte serial_csum c' ≡ gen_csum sn
    stored =
        unfold write_serial_num in
        set_checksum-Agree written serial_csum (λ e. omega (arith, e)) (λ e. omega (arith, e))
        ∙ read_byte-write_byte serial_csum (gen_csum sn) _ (omega arith)
        ∙ omega (arith, gen_csum-lt sn)
