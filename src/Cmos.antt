-- ===== src/Cmos.antt =====
-- The bytes of the battery-backed CMOS memory, x86/common/cmos_io.c with the places of
-- x86/include/common/cmos.h: single bytes, flags and the check sum.
mod Tests
pub mod Checksum
pub mod Flags
pub mod Serial
pub mod Address
pub mod Setup
use cobalt_rom.Prelude.{
  ℕ, zero, suc, ◌+◌, ◌-◌, ◌*◌, ◌/◌, ◌%◌, ◌^◌, Bool, true, false, not, ◌||◌, Option, none, some, ltb,
  ◌==◌, if◌then◌else◌, bit_and, bit_or,
}

-- The content by index; a cell is the low 8 bits of its number.
abbrev pub Nvram : Type 0
Nvram = ℕ → ℕ

abbrev pub info_max : ℕ
info_max = 0x7f

abbrev pub cks_start : ℕ
cks_start = 0x0e

abbrev pub cks_end : ℕ
cks_end = info_max

abbrev pub checksum_place : ℕ
checksum_place = 0x2e

abbrev pub flag_byte_0 : ℕ
flag_byte_0 = 0x10

abbrev pub flag_byte_1 : ℕ
flag_byte_1 = 0x11

abbrev pub flag_min : ℕ
flag_min = 0x0001

abbrev pub flag_max : ℕ
flag_max = 0x0800

-- The bank is 0 on every board after the register access that the code starts with.
unfoldable pub read_byte : ℕ → Nvram → ℕ
read_byte index c = if ltb info_max index then 0 else c index % 256

-- No caller looks at the result, -1 for an index out of range.
unfoldable pub write_byte : ℕ → ℕ → Nvram → Nvram
write_byte index val c =
    if ltb info_max index then c else λ j. if j == index then val % 256 else c j

-- The loop over the bytes that the check sum is of, with the rounds that are left.
unfoldable pub sum_bytes : ℕ → ℕ → Nvram → ℕ → ℕ
sum_bytes zero i c sum = sum
sum_bytes (suc n) i c sum = sum_bytes n (i + 1) c (
    if (i == checksum_place) || (i == checksum_place + 1)
    then sum
    else (sum + read_byte i c) % 2 ^ 16)

unfoldable pub check_checksum : Nvram → Bool
check_checksum c =
    sum_bytes (cks_end + 1 - cks_start) cks_start c 0 % 2 ^ 16
    == bit_or (read_byte checksum_place c * 2 ^ 8) (read_byte (checksum_place + 1) c)

unfoldable pub set_checksum : Nvram → Nvram
set_checksum c =
    let sum = sum_bytes (cks_end + 1 - cks_start) cks_start c 0 in
    write_byte (checksum_place + 1) (sum % 256) (write_byte checksum_place (sum / 2 ^ 8) c)

unfoldable pub read_all_flags : Nvram → ℕ
read_all_flags c = read_byte flag_byte_1 c + read_byte flag_byte_0 c * 256

unfoldable pub write_all_flags : ℕ → Nvram → Nvram
write_all_flags flags c =
    set_checksum
      (write_byte flag_byte_0 (flags / 256 % 256) (write_byte flag_byte_1 (flags % 256) c))

-- `none` is -1.
unfoldable pub read_flag : ℕ → Nvram → Option Bool
read_flag flag c =
    if ltb flag flag_min || ltb flag_max flag
    then none
    else some (not (bit_and (read_all_flags c) flag == 0))

-- `flags & ~flag`, on the 32 bits of an int.
abbrev pub clear_flag : ℕ → ℕ → ℕ
clear_flag flags flag = bit_and flags (2 ^ 32 - 1 - flag)

unfoldable pub write_flag : ℕ → Bool → Nvram → Option Nvram
write_flag flag val c =
    let flags = read_all_flags c in
    if ltb flag flag_min || ltb flag_max flag
    then none
    else some (write_all_flags (if val then bit_or flags flag else clear_flag flags flag) c)
