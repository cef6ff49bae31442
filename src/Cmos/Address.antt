-- ===== src/Cmos/Address.antt =====
-- The address of the BTO server in the CMOS bytes: init_bto_ip and cmos_set_bto_ip of
-- x86/common/cmos.c.
use cobalt_rom.Prelude.{
  ℕ, ◌+◌, ◌*◌, ◌/◌, ◌%◌, ◌^◌, ◌≤◌, ◌<◌, ◌≡◌, true, ◌==◌, if◌then◌else◌, bit_or, arith,
}
use cobalt_rom.Prelude.Bits.{bit_or-join}
use cobalt_rom.Cmos.{Nvram, read_byte, write_byte, check_checksum, set_checksum}
use cobalt_rom.Cmos.Checksum.{set_checksum-Agree, check_checksum-set_checksum}

abbrev pub bto_ip_csum : ℕ
bto_ip_csum = 0x57

abbrev pub bto_ip_place : ℕ
bto_ip_place = 0x58

-- The four bytes of the address and their check sum, from the most significant byte on.
unfoldable pub write_address : ℕ → ℕ → ℕ → ℕ → ℕ → Nvram → Nvram
write_address b0 b1 b2 b3 csum c =
    let c0 = write_byte bto_ip_place b0 c in
    let c1 = write_byte (bto_ip_place + 1) b1 c0 in
    let c2 = write_byte (bto_ip_place + 2) b2 c1 in
    let c3 = write_byte (bto_ip_place + 3) b3 c2 in write_byte bto_ip_csum csum c3

unfoldable pub set_bto_ip : ℕ → Nvram → Nvram
set_bto_ip ip c =
    let b0 = ip / 2 ^ 24 % 256 in
    let b1 = ip / 2 ^ 16 % 256 in
    let b2 = ip / 2 ^ 8 % 256 in
    let b3 = ip % 256 in set_checksum (write_address b0 b1 b2 b3 ((b0 + b1 + b2 + b3) % 256) c)

unfoldable pub join_address : ℕ → ℕ → ℕ → ℕ → ℕ
join_address b0 b1 b2 b3 = bit_or (bit_or (bit_or (b0 * 2 ^ 24) (b1 * 2 ^ 16)) (b2 * 2 ^ 8)) b3

-- The value for bto_ip, and the CMOS memory after the call.
unfoldable pub init_bto_ip : Nvram → ℕ × Nvram
init_bto_ip c =
    let b0 = read_byte bto_ip_place c in
    let b1 = read_byte (bto_ip_place + 1) c in
    let b2 = read_byte (bto_ip_place + 2) c in
    let b3 = read_byte (bto_ip_place + 3) c in
    if (b0 + b1 + b2 + b3) % 256 == read_byte bto_ip_csum c
    then (join_address b0 b1 b2 b3, c)
    else (0, set_checksum (write_address 0 0 0 0 0 c))

join_address_lem :
    (b0 b1 b2 b3 : ℕ)
    → b1 < 256
    → b2 < 256
    → b3 < 256
    → join_address b0 b1 b2 b3 ≡ b0 * 2 ^ 24 + b1 * 2 ^ 16 + b2 * 2 ^ 8 + b3
unfolding join_address
join_address_lem b0 b1 b2 b3 h1 h2 h3 =
    rw
      (
        bit_or-join 24 b0 (b1 * 2 ^ 16) (omega arith),
        two,
        bit_or-join 16 (b0 * 2 ^ 8 + b1) (b2 * 2 ^ 8) (omega arith),
        three,
        bit_or-join 8 (b0 * 2 ^ 16 + b1 * 2 ^ 8 + b2) b3 h3,
      )
      (omega arith)
  where
    two : b0 * 2 ^ 24 + b1 * 2 ^ 16 ≡ (b0 * 2 ^ 8 + b1) * 2 ^ 16
    two = omega arith

    three : (b0 * 2 ^ 8 + b1) * 2 ^ 16 + b2 * 2 ^ 8 ≡ (b0 * 2 ^ 16 + b1 * 2 ^ 8 + b2) * 2 ^ 8
    three = omega arith

-- What the five places hold after the writes.
write_address_lem :
    (b0 b1 b2 b3 csum : ℕ) (c : Nvram)
    → (read_byte 0x58 (write_address b0 b1 b2 b3 csum c) ≡ b0 % 256)
      × (read_byte 0x59 (write_address b0 b1 b2 b3 csum c) ≡ b1 % 256)
      × (read_byte 0x5a (write_address b0 b1 b2 b3 csum c) ≡ b2 % 256)
      × (read_byte 0x5b (write_address b0 b1 b2 b3 csum c) ≡ b3 % 256)
      × (read_byte 0x57 (write_address b0 b1 b2 b3 csum c) ≡ csum % 256)
unfolding write_address write_byte read_byte
write_address_lem b0 b1 b2 b3 csum c =
    (omega arith, omega arith, omega arith, omega arith, omega arith)

-- An address that cmos_set_bto_ip stores is the one that init_bto_ip finds, which changes nothing
-- then, and the check sum of the CMOS memory is right.
pub init_bto_ip-set_bto_ip :
    (ip : ℕ) (c : Nvram)
    → ip < 2 ^ 32
    → (init_bto_ip (set_bto_ip ip c) ≡ (ip, set_bto_ip ip c))
      × (check_checksum (set_bto_ip ip c) ≡ true)
unfolding init_bto_ip
init_bto_ip-set_bto_ip ip c h = (found, unfold set_bto_ip in check_checksum-set_checksum _)
  where
    written : Nvram
    written =
        write_address (ip / 2 ^ 24 % 256) (ip / 2 ^ 16 % 256) (ip / 2 ^ 8 % 256) (ip % 256)
          ((ip / 2 ^ 24 % 256 + ip / 2 ^ 16 % 256 + ip / 2 ^ 8 % 256 + ip % 256) % 256) c

    holds :
        (read_byte 0x58 written ≡ ip / 2 ^ 24 % 256 % 256)
        × (read_byte 0x59 written ≡ ip / 2 ^ 16 % 256 % 256)
        × (read_byte 0x5a written ≡ ip / 2 ^ 8 % 256 % 256)
        × (read_byte 0x5b written ≡ ip % 256 % 256)
        × (read_byte 0x57 written
            ≡ (ip / 2 ^ 24 % 256 + ip / 2 ^ 16 % 256 + ip / 2 ^ 8 % 256 + ip % 256) % 256 % 256)
    holds = write_address_lem _ _ _ _ _ c

    kept : (j : ℕ) → 0x57 ≤ j → read_byte j (set_bto_ip ip c) ≡ read_byte j written
    kept j hj =
        unfold set_bto_ip in
        set_checksum-Agree written j (λ e. omega (arith, e, hj)) (λ e. omega (arith, e, hj))

    found : init_bto_ip (set_bto_ip ip c) ≡ (ip, set_bto_ip ip c)
    found =
        unfold init_bto_ip in
        rw
          (
            kept 0x58 (omega arith),
            kept 0x59 (omega arith),
            kept 0x5a (omega arith),
            kept 0x5b (omega arith),
            kept 0x57 (omega arith),
            holds.0,
            holds.1,
            holds.2,
            holds.3,
            holds.4,
            join_address_lem (ip / 2 ^ 24 % 256 % 256) (ip / 2 ^ 16 % 256 % 256)
                (ip / 2 ^ 8 % 256 % 256) (ip % 256 % 256) (omega arith) (omega arith) (omega arith),
          )
          (ground arith)
