-- ===== src/Cmos/Setup/Ready.antt =====
-- What holds of the CMOS memory after cmos_init, whatever it held before.
use cobalt_rom.Prelude.{
  ℕ, ◌≤◌, ◌≡◌, refl, ◌∙◌, ap, Bool, true, false, not, if_intro, some, ltb, if◌then◌else◌, arith,
}
use cobalt_rom.Cmos.{
  Nvram, read_byte, write_byte, check_checksum, set_checksum, read_all_flags, read_flag, write_flag,
  flag_byte_0, flag_byte_1,
}
use cobalt_rom.Cmos.Checksum.{
  read_byte-write_byte, read_byte-write_byte_ne, set_checksum-Agree, check_checksum-set_checksum,
}
use cobalt_rom.Cmos.Flags.{write_flag_lem}
use cobalt_rom.Cmos.Address.{init_bto_ip, write_address}
use cobalt_rom.Cmos.Serial.{read_serial_num_lem}
use cobalt_rom.Cmos.Setup.{
  Rom, put_flag, test_flag, clear_four, write_rom_rev, checked, versioned, upgraded, cmos_init,
  flags_sync, version_flag, version_place, version_current, ver_btocode, bto_code_place,
  bios_drive_info,
}

-- The check sum is right, the version is valid and it is a current one.
abbrev pub IsReady : Nvram → Type 0
IsReady c =
    (check_checksum c ≡ true)
    × (read_flag version_flag c ≡ some true)
    × (version_current ≤ read_byte version_place c)

-- The bytes that the last two conditions are about.
abbrev Keeps : Nvram → Nvram → Type 0
Keeps c c' =
    (read_byte flag_byte_0 c' ≡ read_byte flag_byte_0 c)
    × (read_byte flag_byte_1 c' ≡ read_byte flag_byte_1 c)
    × (read_byte version_place c' ≡ read_byte version_place c)

read_flag-Keeps : (f : ℕ) (c c' : Nvram) → Keeps c c' → read_flag f c' ≡ read_flag f c
unfolding read_flag read_all_flags
read_flag-Keeps f c c' h = rw (h.0, h.1) refl

set_checksum-Keeps : (c : Nvram) → Keeps c (set_checksum c)
set_checksum-Keeps c = (
  set_checksum-Agree c flag_byte_0 (λ e. omega (arith, e)) (λ e. omega (arith, e)),
  set_checksum-Agree c flag_byte_1 (λ e. omega (arith, e)) (λ e. omega (arith, e)),
  set_checksum-Agree c version_place (λ e. omega (arith, e)) (λ e. omega (arith, e)),
)

write_address-Keeps : (c : Nvram) → Keeps c (write_address 0 0 0 0 0 c)
unfolding write_address write_byte read_byte
write_address-Keeps c = (refl, refl, refl)

-- init_bto_ip keeps a memory ready.
init_bto_ip-IsReady : (c : Nvram) → IsReady c → IsReady ((init_bto_ip c).1)
unfolding init_bto_ip
init_bto_ip-IsReady c h =
    if_intro {A = ℕ × Nvram} (λ p. IsReady (p.1)) _ (λ e. h)
      (λ e. (
        check_checksum-set_checksum cleared,
        read_flag-Keeps version_flag c reset keeps ∙ h.1,
        rw (keeps.2) (h.2),
      ))
  where
    cleared : Nvram
    cleared = write_address 0 0 0 0 0 c

    reset : Nvram
    reset = set_checksum cleared

    keeps : Keeps c reset
    keeps = (
      (set_checksum-Keeps cleared).0 ∙ (write_address-Keeps c).0,
      (set_checksum-Keeps cleared).1 ∙ (write_address-Keeps c).1,
      (set_checksum-Keeps cleared).2 ∙ (write_address-Keeps c).2,
    )

-- A flag that cmos_write_flag sets is set for a condition.
put_flag-version : (c : Nvram) → read_flag version_flag (put_flag version_flag true c) ≡ some true
unfolding put_flag read_flag
put_flag-version c =
    let found = write_flag_lem 9 true c (omega arith) in
    let stored : write_flag version_flag true c ≡ some (found.0) = found.1 in
    rw (put_flag, stored) (found.3 9 (omega arith))

write_version-flag :
    (v : ℕ) (d : Nvram)
    → read_flag version_flag (write_byte version_place v d) ≡ read_flag version_flag d
unfolding read_flag read_all_flags
write_version-flag v d =
    rw
      (
        read_byte-write_byte_ne version_place flag_byte_1 v d (λ e. omega (arith, e)),
        read_byte-write_byte_ne version_place flag_byte_0 v d (λ e. omega (arith, e)),
      )
      refl

-- What holds before the version is brought up to date.
abbrev IsVersioned : Nvram → Type 0
IsVersioned c =
    (read_flag version_flag c ≡ some true)
    × (version_current ≤ read_byte version_place c → check_checksum c ≡ true)

module _ (v_maj v_min v_rev : ℕ) (do_first_boot : Nvram → Nvram) (systype_is_3k : Bool) where
  write_rom_rev-checks :
      (c : Nvram)
      → check_checksum (write_rom_rev v_maj v_min v_rev do_first_boot systype_is_3k c) ≡ true
  unfolding write_rom_rev
  write_rom_rev-checks c = check_checksum-set_checksum _

  -- Where the flag of the version is not set, the version is 0 after the code has set it.
  versioned-IsVersioned :
      (c : Nvram)
      → check_checksum c ≡ true
      → IsVersioned (versioned v_maj v_min v_rev do_first_boot systype_is_3k c)
  unfolding versioned
  versioned-IsVersioned c h =
      if_intro {A = Nvram} IsVersioned _ (λ e. (flag_is_set e, λ k. h))
        (λ e. (
          write_version-flag 0 (put_flag version_flag true c) ∙ put_flag-version c,
          λ k. absurd (
              omega (
                arith,
                k,
                read_byte-write_byte version_place 0 (put_flag version_flag true c) (omega arith),
              )),
        ))
    where
      flag_is_set : test_flag version_flag c ≡ true → read_flag version_flag c ≡ some true
      flag_is_set e = unfold test_flag read_flag in ap some e

  clear_four-flag :
      (c : Nvram) (b : Bool)
      → read_flag version_flag (if b then clear_four bto_code_place c else c)
        ≡ read_flag version_flag c
  unfolding clear_four write_byte read_flag read_all_flags read_byte
  clear_four-flag c true = refl
  clear_four-flag c false = refl

  upgraded-IsReady :
      (c : Nvram)
      → IsVersioned c
      → IsReady (upgraded v_maj v_min v_rev do_first_boot systype_is_3k c)
  unfolding upgraded
  upgraded-IsReady c h =
      if_intro {A = Nvram} IsReady (ltb (read_byte version_place c) version_current)
        (λ e. (
          check_checksum-set_checksum _,
          read_flag-Keeps version_flag new (set_checksum new) (set_checksum-Keeps new)
              ∙ write_version-flag version_current code
              ∙ clear_four-flag c _
              ∙ h.0,
          omega (
            arith,
            (set_checksum-Keeps new).2,
            read_byte-write_byte version_place version_current code (omega arith),
          ),
        ))
        (λ e. (h.1 (ground (arith, e)), h.0, ground (arith, e)))
    where
      code : Nvram
      code = if ltb (read_byte version_place c) ver_btocode then clear_four bto_code_place c else c

      new : Nvram
      new = write_byte version_place version_current code

  -- Whatever the CMOS memory holds, also a broken check sum, and whatever do_first_boot stores in
  -- it, cmos_init leaves a memory with a right check sum, a valid version and a current one. The
  -- variable first_boot tells whether the check sum was broken.
  pub cmos_init-IsReady :
      (r : Rom)
      → IsReady ((cmos_init v_maj v_min v_rev do_first_boot systype_is_3k r).nvram)
        × ((cmos_init v_maj v_min v_rev do_first_boot systype_is_3k r).first_boot
            ≡ not (check_checksum r.nvram))
  unfolding cmos_init flags_sync
  cmos_init-IsReady r = (rw (ap (λ p. p.1) (read_serial_num_lem systype_is_3k ip.1)) ready, refl)
    where
      revised : Nvram
      revised = write_rom_rev v_maj v_min v_rev do_first_boot systype_is_3k (
          write_byte bios_drive_info 0x0
            (checked v_maj v_min v_rev do_first_boot systype_is_3k r.nvram))

      current : Nvram
      current =
          upgraded v_maj v_min v_rev do_first_boot systype_is_3k
            (versioned v_maj v_min v_rev do_first_boot systype_is_3k revised)

      ip : ℕ × Nvram
      ip = init_bto_ip current

      ready : IsReady ip.1
      ready =
          init_bto_ip-IsReady current
            (upgraded-IsReady _ (versioned-IsVersioned revised (write_rom_rev-checks _)))
