-- ===== src/Cmos/Tests.antt =====
-- The CMOS memory at concrete contents.
use cobalt_rom.Prelude.{
  ℕ, ◌^◌, ◌<◌, max, ◌≡◌, refl, true, false, not, some, ◌==◌, if◌then◌else◌, [], arith,
}
use cobalt_rom.Cmos.{Nvram, read_byte, check_checksum, sum_bytes, read_flag, write_flag}
use cobalt_rom.Cmos.Flags.{write_flag_lem}
use cobalt_rom.Cmos.Serial.{read_serial_num, write_serial_num, read_serial_num-write_serial_num}
use cobalt_rom.Cmos.Address.{init_bto_ip, set_bto_ip, init_bto_ip-set_bto_ip}
use cobalt_rom.Cmos.Setup.{
  Rom, cmos_init, uninitialized, version_place, read_boot_dev, read_root_dev,
}
use cobalt_rom.Cmos.Setup.Ready.{IsReady, cmos_init-IsReady}
use cobalt_rom.Cmos.Setup.FirstBoot.{first_start, first_start-memory}
use cobalt_rom.Cmos.Setup.Table.{cmos_flags_table}

-- A memory of ones, whose check sum is wrong.
abbrev ones : Nvram
ones i = 255

abbrev counting : Nvram
counting i = i

abbrev start : Rom
start = record {
  serial_num = [];
  console = false;
  debug = false;
  boot_method = 0;
  auto_prompt = false;
  first_boot = false;
  clean_boot = false;
  show_logo = false;
  unique_root = false;
  sysfault = false;
  bto_ip = 0;
  cmos_version = 0;
  boot_type = 0;
  cmos_flags = cmos_flags_table;
  nvram = ones;
}

ones_wrong : check_checksum ones ≡ false
unfolding check_checksum sum_bytes read_byte
ones_wrong = refl

write_flag_example :
    (c' : Nvram) × (write_flag (2 ^ 9) true counting ≡ some c')
    × (check_checksum c' ≡ true)
    × ((j : ℕ)
        → j < 12
        → read_flag (2 ^ j) c' ≡ (if j == 9 then some true else read_flag (2 ^ j) counting))
write_flag_example = write_flag_lem 9 true counting (omega arith)

read_serial_num-write_serial_num_example :
    ((read_serial_num false (write_serial_num uninitialized counting)).0 ≡ uninitialized)
    × (check_checksum (write_serial_num uninitialized counting) ≡ true)
read_serial_num-write_serial_num_example =
    read_serial_num-write_serial_num false uninitialized counting refl (
      omega arith,
      (
        omega arith,
        (
          omega arith,
          (
            omega arith,
            (
              omega arith,
              (
                omega arith,
                (
                  omega arith,
                  (
                    omega arith,
                    (omega arith, (omega arith, (omega arith, (omega arith, (omega arith, tt))))),
                  ),
                ),
              ),
            ),
          ),
        ),
      ),
    )

init_bto_ip-set_bto_ip_example :
    (init_bto_ip (set_bto_ip 3232235777 ones) ≡ (3232235777, set_bto_ip 3232235777 ones))
    × (check_checksum (set_bto_ip 3232235777 ones) ≡ true)
init_bto_ip-set_bto_ip_example = init_bto_ip-set_bto_ip 3232235777 ones (omega arith)

cmos_init-IsReady_example :
    IsReady ((cmos_init 2 10 3 (λ c. c) false start).nvram)
    × ((cmos_init 2 10 3 (λ c. c) false start).first_boot ≡ not (check_checksum ones))
cmos_init-IsReady_example = cmos_init-IsReady 2 10 3 (λ c. c) false start

first_start-memory_example :
    ((first_start 2 10 3 false start).serial_num ≡ uninitialized)
    × ((first_start 2 10 3 false start).bto_ip ≡ 0)
    × (read_boot_dev ((first_start 2 10 3 false start).nvram) ≡ (if false then 0x0301 else 0x0901))
    × (read_root_dev ((first_start 2 10 3 false start).nvram) ≡ (if false then 0x0301 else 0x0901))
    × ((first_start 2 10 3 false start).cmos_version ≡ max 1 (read_byte version_place ones))
first_start-memory_example = first_start-memory 2 10 3 false start ones_wrong
