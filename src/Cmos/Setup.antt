-- ===== src/Cmos/Setup.antt =====
-- The start of the CMOS code, x86/common/cmos.c: cmos_init with the defaults that it sets, the
-- boot devices it stores and the table of named flags.
pub mod Table
pub mod Ready
pub mod FirstBoot
use cobalt_rom.Prelude.{
  ℕ, zero, suc, ◌+◌, ◌*◌, ◌^◌, Bool, true, false, not, ◌&&◌, ◌||◌, Option, none, some, List, [],
  ◌∷◌, ltb, ◌==◌, if◌then◌else◌, bit_or,
}
use cobalt_rom.Cmos.{
  Nvram, read_byte, write_byte, check_checksum, set_checksum, read_flag, write_flag, flag_byte_0,
  flag_byte_1,
}
use cobalt_rom.Cmos.Serial.{write_serial_num, read_serial_num}
use cobalt_rom.Cmos.Address.{init_bto_ip, write_address}

abbrev pub console_flag : ℕ
console_flag = 0x0001

abbrev pub debug_flag : ℕ
debug_flag = 0x0002

abbrev pub auto_prompt_flag : ℕ
auto_prompt_flag = 0x0004

abbrev pub clean_boot_flag : ℕ
clean_boot_flag = 0x0008

abbrev pub sysfault_flag : ℕ
sysfault_flag = 0x0020

abbrev pub nologo_flag : ℕ
nologo_flag = 0x0100

abbrev pub version_flag : ℕ
version_flag = 0x0200

abbrev pub unique_flag : ℕ
unique_flag = 0x0800

abbrev pub bios_drive_info : ℕ
bios_drive_info = 0x12

abbrev pub version_place : ℕ
version_place = 0x13

abbrev pub version_current : ℕ
version_current = 1

abbrev pub ver_btocode : ℕ
ver_btocode = 1

abbrev pub boot_method_place : ℕ
boot_method_place = 0x20

abbrev pub boot_method_disk : ℕ
boot_method_disk = 0

abbrev pub boot_method_nnet : ℕ
boot_method_nnet = 3

abbrev pub boot_dev_place : ℕ
boot_dev_place = 0x21

abbrev pub root_dev_place : ℕ
root_dev_place = 0x23

abbrev pub uptime_place : ℕ
uptime_place = 0x30

abbrev pub bootcount_place : ℕ
bootcount_place = 0x38

abbrev pub rom_rev_place : ℕ
rom_rev_place = 0x50

abbrev pub bto_code_place : ℕ
bto_code_place = 0x53

abbrev pub boot_type_place : ℕ
boot_type_place = 0x5c

abbrev pub boot_type_def : ℕ
boot_type_def = bit_or 0x01 0x10

-- "Uninitialized"
abbrev pub uninitialized : List ℕ
uninitialized = 85 ∷ 110 ∷ 105 ∷ 110 ∷ 105 ∷ 116 ∷ 105 ∷ 97 ∷ 108 ∷ 105 ∷ 122 ∷ 101 ∷ 100 ∷ []

pub record Flag : Type 0 where
  pub name : List ℕ
  pub flag : ℕ
  pub state : Bool

-- The variables that the CMOS code keeps in memory, and the CMOS memory itself.
pub record Rom : Type 0 where
  pub serial_num : List ℕ
  pub console : Bool
  pub debug : Bool
  pub boot_method : ℕ
  pub auto_prompt : Bool
  pub first_boot : Bool
  pub clean_boot : Bool
  pub show_logo : Bool
  pub unique_root : Bool
  pub sysfault : Bool
  pub bto_ip : ℕ
  pub cmos_version : ℕ
  pub boot_type : ℕ
  pub cmos_flags : List Flag
  pub nvram : Nvram

-- A call of cmos_write_flag whose result is not looked at.
unfoldable pub put_flag : ℕ → Bool → Nvram → Nvram
put_flag flag val c = elim (write_flag flag val c) [ some c' ↦ c' | none ↦ c ]

-- The result of cmos_read_flag as a condition: -1 is true.
unfoldable pub test_flag : ℕ → Nvram → Bool
test_flag flag c = elim (read_flag flag c) [ some b ↦ b | none ↦ true ]

-- Four zero bytes from a place on.
unfoldable pub clear_four : ℕ → Nvram → Nvram
clear_four place c =
    write_byte (place + 3) 0
      (write_byte (place + 2) 0 (write_byte (place + 1) 0 (write_byte place 0 c)))

unfoldable pub store_device : ℕ → ℕ → ℕ → Nvram → Nvram
store_device place maj min c = write_byte (place + 1) min (write_byte place maj c)

-- The power mode is in registers outside these bytes.
unfoldable pub set_defaults : Bool → Nvram → Nvram
set_defaults systype_is_3k c =
    let cleared = write_byte flag_byte_1 0 (write_byte flag_byte_0 0 c) in
    let console = put_flag console_flag true cleared in
    let debug = put_flag debug_flag true console in
    let clean_boot = put_flag clean_boot_flag true debug in
    let flags = put_flag version_flag true clean_boot in
    let method = write_byte boot_method_place boot_method_disk flags in
    let boot = write_byte boot_type_place boot_type_def method in
    let maj = if systype_is_3k then 0x03 else 0x09 in
    let boot_dev = store_device boot_dev_place maj 0x01 boot in
    let root_dev = store_device root_dev_place maj 0x01 boot_dev in
    set_checksum (write_address 0 0 0 0 0 root_dev)

-- The wake event registers of an Alpine board are outside these bytes.
unfoldable pub first_boot_defaults_only : Bool → Nvram → Nvram
first_boot_defaults_only reset_sn c =
    let counters =
      clear_four bto_code_place (clear_four bootcount_place (clear_four uptime_place c)) in
    let serial = if reset_sn then write_serial_num uninitialized counters else counters in
    set_checksum (write_byte boot_method_place boot_method_nnet serial)

-- The monitor's do_first_boot, but for rtc_set_defaults, which sets the clock.
unfoldable pub monitor_first_boot : Bool → Nvram → Nvram
monitor_first_boot systype_is_3k c = first_boot_defaults_only true (set_defaults systype_is_3k c)

unfoldable pub read_device : ℕ → Nvram → ℕ
read_device place c = bit_or (read_byte place c * 2 ^ 8) (read_byte (place + 1) c)

unfoldable pub read_boot_dev : Nvram → ℕ
read_boot_dev c = read_device boot_dev_place c

unfoldable pub read_root_dev : Nvram → ℕ
read_root_dev c = read_device root_dev_place c

-- The variable that the switch of cmos_flags_sync picks for a flag.
unfoldable pub flag_variable : ℕ → Rom → Option Bool
flag_variable flag r =
    if flag == debug_flag
    then some r.debug
    else if flag == console_flag
    then some r.console
    else if flag == auto_prompt_flag
    then some r.auto_prompt
    else if flag == clean_boot_flag
    then some r.clean_boot
    else if flag == sysfault_flag
    then some r.sysfault
    else if flag == nologo_flag
    then some r.show_logo
    else if flag == unique_flag
    then some r.unique_root
    else none

unfoldable pub set_flag_variable : ℕ → Bool → Rom → Rom
set_flag_variable flag state r =
    if flag == debug_flag
    then record r { debug = state }
    else if flag == console_flag
    then record r { console = state }
    else if flag == auto_prompt_flag
    then record r { auto_prompt = state }
    else if flag == clean_boot_flag
    then record r { clean_boot = state }
    else if flag == sysfault_flag
    then record r { sysfault = state }
    else if flag == nologo_flag
    then record r { show_logo = state }
    else if flag == unique_flag
    then record r { unique_root = state }
    else r

unfoldable pub load_state : Rom → Flag → Flag
load_state r f = elim (flag_variable f.flag r) [ some b ↦ record f { state = b } | none ↦ f ]

unfoldable pub load_states : Rom → List Flag → List Flag
load_states r [] = []
load_states r (f ∷ fs) = load_state r f ∷ load_states r fs

unfoldable pub store_states : List Flag → Rom → Rom
store_states [] r = r
store_states (f ∷ fs) r = store_states fs (set_flag_variable f.flag f.state r)

-- `dir` 0 loads the table from the variables; any other stores it in them.
unfoldable pub flags_sync : Bool → Rom → Rom
flags_sync true r = store_states r.cmos_flags r
flags_sync false r = record r { cmos_flags = load_states r r.cmos_flags }

unfoldable pub flags_find : ℕ → List Flag → Option Flag
flags_find flag [] = none
flags_find flag (f ∷ fs) = if f.flag == flag then some f else flags_find flag fs

-- `V_MAJ`, `V_MIN` and `V_REV` come from the build, `do_first_boot` from the program that the code
-- is linked into, and the type of the system from its hardware.
module _ (v_maj v_min v_rev : ℕ) (do_first_boot : Nvram → Nvram) (systype_is_3k : Bool) where
  unfoldable pub write_rom_rev : Nvram → Nvram
  write_rom_rev c =
      let c0 = write_byte rom_rev_place v_maj c in
      let c1 = write_byte (rom_rev_place + 1) v_min c0 in
      let c2 = write_byte (rom_rev_place + 2) v_rev c1 in set_checksum c2

  -- The memory when the check sum has been looked at.
  unfoldable pub checked : Nvram → Nvram
  checked c = if check_checksum c then c else set_checksum (do_first_boot c)

  unfoldable pub versioned : Nvram → Nvram
  versioned c =
      if test_flag version_flag c
      then c
      else write_byte version_place 0 (put_flag version_flag true c)

  unfoldable pub upgraded : Nvram → Nvram
  upgraded c =
      let code =
        if ltb (read_byte version_place c) ver_btocode then clear_four bto_code_place c else c in
      if ltb (read_byte version_place c) version_current
      then set_checksum (write_byte version_place version_current code)
      else c

  -- The variables that are read from the memory before the version is looked at.
  unfoldable pub read_variables : Nvram → Rom → Rom
  read_variables c r =
      let on = test_flag console_flag c in
      record r {
        console = on;
        debug = test_flag debug_flag c && on;
        clean_boot = test_flag clean_boot_flag c;
        show_logo = not (test_flag nologo_flag c);
        auto_prompt = test_flag auto_prompt_flag c && on;
        unique_root = test_flag unique_flag c;
        sysfault = test_flag sysfault_flag c;
        boot_method = read_byte boot_method_place c;
        boot_type = read_byte boot_type_place c;
      }

  unfoldable pub cmos_init : Rom → Rom
  cmos_init r =
      let opened = checked r.nvram in
      let revised = write_rom_rev (write_byte bios_drive_info 0x0 opened) in
      let flagged = versioned revised in
      let current = upgraded flagged in
      let ip = init_bto_ip current in
      let serial = read_serial_num systype_is_3k ip.1 in
      flags_sync false (record (read_variables flagged r) {
        first_boot = not (check_checksum r.nvram);
        cmos_version = read_byte version_place current;
        bto_ip = ip.0;
        serial_num = serial.0;
        nvram = serial.1;
      })
