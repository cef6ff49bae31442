-- ===== src/Cmos/Setup/FirstBoot.antt =====
-- The first boot of the monitor: cmos_init on a memory whose check sum is broken.
use cobalt_rom.Prelude.{
  ℕ, zero, suc, ◌+◌, ◌*◌, ◌%◌, ◌^◌, ◌≤◌, ◌<◌, max, ◌≡◌, ◌≢◌, refl, ◌∙◌, ap, Bool, true, false, ltb,
  if◌then◌else◌, if_intro, bit_or, List, arith,
}
use cobalt_rom.Cmos.{
  checksum_place, Nvram, check_checksum, set_checksum, write_flag, read_flag, read_all_flags,
  write_all_flags, write_byte, read_byte,
}
use cobalt_rom.Cmos.Checksum.{read_byte-write_byte, read_byte-write_byte_ne, set_checksum-Agree}
use cobalt_rom.Cmos.Serial.{
  serial_place, read_serial_num_lem, serial_len, serial_csum, read_serial_num, gen_csum, key_sum,
  read_chars, write_serial_num, write_chars,
}
use cobalt_rom.Cmos.Address.{init_bto_ip, join_address, write_address}
use cobalt_rom.Cmos.Setup.{
  Rom, cmos_init, bto_code_place, version_current, bios_drive_info, upgraded, read_device,
  version_place, monitor_first_boot, read_boot_dev, read_root_dev, uninitialized, boot_method_nnet,
  checked, set_defaults, first_boot_defaults_only, flags_sync, read_variables, versioned,
  write_rom_rev, put_flag, test_flag, store_device, clear_four,
}

abbrev pub first_start : ℕ → ℕ → ℕ → Bool → Rom → Rom
first_start v_maj v_min v_rev systype_is_3k r =
    cmos_init v_maj v_min v_rev (monitor_first_boot systype_is_3k) systype_is_3k r

-- After a first boot the ROM takes kernel and file system from the net and shows its messages and
-- its logo, whatever the memory held.
pub first_start-variables :
    (v_maj v_min v_rev : ℕ) (systype_is_3k : Bool) (r : Rom)
    → check_checksum r.nvram ≡ false
    → ((first_start v_maj v_min v_rev systype_is_3k r).boot_method ≡ boot_method_nnet)
      × ((first_start v_maj v_min v_rev systype_is_3k r).console ≡ true)
      × ((first_start v_maj v_min v_rev systype_is_3k r).debug ≡ true)
      × ((first_start v_maj v_min v_rev systype_is_3k r).clean_boot ≡ true)
      × ((first_start v_maj v_min v_rev systype_is_3k r).auto_prompt ≡ false)
      × ((first_start v_maj v_min v_rev systype_is_3k r).show_logo ≡ true)
unfolding cmos_init checked flags_sync read_variables versioned write_rom_rev monitor_first_boot
    first_boot_defaults_only set_defaults write_serial_num write_chars put_flag test_flag write_flag
    read_flag read_all_flags write_all_flags set_checksum write_byte read_byte write_address
    store_device clear_four
first_start-variables v_maj v_min v_rev true r broken =
    rw broken (refl, refl, refl, refl, refl, refl)
first_start-variables v_maj v_min v_rev false r broken =
    rw broken (refl, refl, refl, refl, refl, refl)

-- What a memory `d` holds that the code set up at a first boot, where it held `c` before.
abbrev FreshReads : Bool → Nvram → Nvram → Type 0
FreshReads systype_is_3k c d =
    (read_chars serial_len 0 d ≡ uninitialized)
    × (read_byte serial_csum d ≡ gen_csum uninitialized)
    × (read_byte 0x57 d ≡ 0)
    × (read_byte 0x58 d ≡ 0)
    × (read_byte 0x59 d ≡ 0)
    × (read_byte 0x5a d ≡ 0)
    × (read_byte 0x5b d ≡ 0)
    × (read_byte version_place d ≡ read_byte version_place c)
    × (read_byte 0x21 d ≡ (if systype_is_3k then 3 else 9))
    × (read_byte 0x22 d ≡ 1)
    × (read_byte 0x23 d ≡ (if systype_is_3k then 3 else 9))
    × (read_byte 0x24 d ≡ 1)

-- What bringing the version up to date leaves alone.
abbrev IsOther : ℕ → Type 0
IsOther j = (0x14 ≤ j) × (j ≢ checksum_place) × (j ≢ checksum_place + 1) × (0x53 ≤ j → 0x57 ≤ j)

clear_four-other :
    (j : ℕ) (b : Bool) (c : Nvram)
    → IsOther j
    → read_byte j (if b then clear_four bto_code_place c else c) ≡ read_byte j c
unfolding clear_four read_byte write_byte
clear_four-other j true c h = ground (arith, h)
clear_four-other j false c h = refl

module _ (v_maj v_min v_rev : ℕ) (systype_is_3k : Bool) where
  upgraded-other :
      (j : ℕ) (c : Nvram)
      → IsOther j
      → read_byte j (upgraded v_maj v_min v_rev (monitor_first_boot systype_is_3k) systype_is_3k c)
        ≡ read_byte j c
  unfolding upgraded
  upgraded-other j c h =
      if_intro {A = Nvram} (λ d. read_byte j d ≡ read_byte j c)
        (ltb (read_byte version_place c) version_current)
        (λ e.
          set_checksum-Agree _ j (h.1) (h.2)
          ∙ read_byte-write_byte_ne version_place j _ _ (λ q. omega (arith, q, h.0))
          ∙ clear_four-other j _ c h)
        (λ e. refl)

  upgraded-version :
      (c : Nvram)
      → read_byte version_place
          (upgraded v_maj v_min v_rev (monitor_first_boot systype_is_3k) systype_is_3k c)
        ≡ max 1 (read_byte version_place c)
  unfolding upgraded
  upgraded-version c =
      if_intro {A = Nvram} (λ d. read_byte version_place d ≡ max 1 (read_byte version_place c))
        (ltb (read_byte version_place c) version_current)
        (λ e.
          set_checksum-Agree _ version_place (λ q. omega (arith, q)) (λ q. omega (arith, q))
          ∙ read_byte-write_byte version_place version_current _ (omega arith)
          ∙ ground (arith, e))
        (λ e. ground (arith, e))

  -- The memory before its version is looked at.
  abbrev flagged : Nvram → Nvram
  flagged c = versioned v_maj v_min v_rev (monitor_first_boot systype_is_3k) systype_is_3k (
      write_rom_rev v_maj v_min v_rev (monitor_first_boot systype_is_3k) systype_is_3k
        (write_byte bios_drive_info 0x0 (set_checksum (monitor_first_boot systype_is_3k c))))

  flagged_reads : (c : Nvram) → FreshReads systype_is_3k c (flagged c)
  unfolding checked versioned write_rom_rev monitor_first_boot first_boot_defaults_only set_defaults
      write_serial_num write_chars put_flag test_flag write_flag read_flag read_all_flags
      write_all_flags set_checksum write_byte read_byte write_address store_device clear_four
      read_chars gen_csum key_sum
  flagged_reads c = (
    refl,
    refl,
    refl,
    refl,
    refl,
    refl,
    refl,
    refl,
    major systype_is_3k,
    refl,
    major systype_is_3k,
    refl,
  )
    where
      major : (b : Bool) → (if b then 3 else 9) % 256 % 256 ≡ (if b then 3 else 9)
      major true = refl
      major false = refl

-- Contents that agree at the places of the serial number hold the same characters.
read_chars-agree :
    (n i : ℕ) (c c' : Nvram)
    → ((j : ℕ) → serial_place ≤ j → j < serial_place + (i + n) → read_byte j c' ≡ read_byte j c)
    → read_chars n i c' ≡ read_chars n i c
unfolding read_chars
read_chars-agree zero i c c' h = refl
read_chars-agree (suc n) i c c' h =
    rw
      (
        h (serial_place + i) (omega arith) (omega arith),
        read_chars-agree n (i + 1) c c' (λ j lo hi. h j lo (omega (arith, hi))),
      )
      refl

-- After a first boot the serial number reads "Uninitialized", the address of the BTO server is 0
-- and the boot and root devices are 3:1 on a 3K system and 9:1 on the others. The version is not
-- set: it is the byte that the broken memory held, or 1 where that byte was 0.
pub first_start-memory :
    (v_maj v_min v_rev : ℕ) (systype_is_3k : Bool) (r : Rom)
    → check_checksum r.nvram ≡ false
    → ((first_start v_maj v_min v_rev systype_is_3k r).serial_num ≡ uninitialized)
      × ((first_start v_maj v_min v_rev systype_is_3k r).bto_ip ≡ 0)
      × (read_boot_dev ((first_start v_maj v_min v_rev systype_is_3k r).nvram)
          ≡ (if systype_is_3k then 0x0301 else 0x0901))
      × (read_root_dev ((first_start v_maj v_min v_rev systype_is_3k r).nvram)
          ≡ (if systype_is_3k then 0x0301 else 0x0901))
      × ((first_start v_maj v_min v_rev systype_is_3k r).cmos_version
          ≡ max 1 (read_byte version_place r.nvram))
unfolding cmos_init flags_sync
first_start-memory v_maj v_min v_rev systype_is_3k r broken =
    rw (opened, address, serial_read) (refl, refl, boot_device, root_device, version)
  where
    opened :
        checked v_maj v_min v_rev (monitor_first_boot systype_is_3k) systype_is_3k r.nvram
        ≡ set_checksum (monitor_first_boot systype_is_3k r.nvram)
    opened = unfold checked in rw broken refl

    before : Nvram
    before = flagged v_maj v_min v_rev systype_is_3k r.nvram

    now : Nvram
    now = upgraded v_maj v_min v_rev (monitor_first_boot systype_is_3k) systype_is_3k before

    reads : FreshReads systype_is_3k r.nvram before
    reads = flagged_reads v_maj v_min v_rev systype_is_3k r.nvram

    kept : (j : ℕ) → IsOther j → read_byte j now ≡ read_byte j before
    kept j h = upgraded-other v_maj v_min v_rev systype_is_3k j before h

    address_byte : (j : ℕ) → 0x57 ≤ j → read_byte j before ≡ 0 → read_byte j now ≡ 0
    address_byte j lo e =
        kept j (omega (arith, lo), λ q. omega (arith, q, lo), λ q. omega (arith, q, lo), λ q. lo)
        ∙ e

    address : init_bto_ip now ≡ (0, now)
    address =
        unfold init_bto_ip join_address in
        rw
          (
            address_byte 0x57 (omega arith) reads.2,
            address_byte 0x58 (omega arith) reads.3,
            address_byte 0x59 (omega arith) reads.4,
            address_byte 0x5a (omega arith) reads.5,
            address_byte 0x5b (omega arith) reads.6,
          )
          refl

    serial_byte : (j : ℕ) → 0x40 ≤ j → j < 0x50 → read_byte j now ≡ read_byte j before
    serial_byte j lo hi = kept j (
      omega (arith, lo),
      λ q. omega (arith, q, lo),
      λ q. omega (arith, q, lo),
      λ q. absurd (omega (arith, q, hi)),
    )

    chars : read_chars serial_len 0 now ≡ uninitialized
    chars =
        read_chars-agree serial_len 0 before now (λ j lo hi. serial_byte j lo (omega (arith, hi)))
        ∙ reads.0

    stored : read_byte serial_csum now ≡ gen_csum uninitialized
    stored = serial_byte serial_csum (omega arith) (omega arith) ∙ reads.1

    serial_read : read_serial_num systype_is_3k now ≡ (uninitialized, now)
    serial_read =
        read_serial_num_lem systype_is_3k now
        ∙ ap (λ (t : List ℕ). (t, now)) (rw (chars, stored) (unfold gen_csum key_sum in refl))

    device_byte : (j : ℕ) → 0x14 ≤ j → j < 0x2e → read_byte j now ≡ read_byte j before
    device_byte j lo hi = kept j (
      lo,
      λ q. omega (arith, q, hi),
      λ q. omega (arith, q, hi),
      λ q. absurd (omega (arith, q, hi)),
    )

    number : (b : Bool) → bit_or ((if b then 3 else 9) * 2 ^ 8) 1 ≡ (if b then 0x0301 else 0x0901)
    number true = refl
    number false = refl

    boot_device : read_boot_dev now ≡ (if systype_is_3k then 0x0301 else 0x0901)
    boot_device =
        unfold read_boot_dev read_device in
        rw
          (
            device_byte 0x21 (omega arith) (omega arith),
            device_byte 0x22 (omega arith) (omega arith),
            reads.8,
            reads.9,
          )
          (number systype_is_3k)

    root_device : read_root_dev now ≡ (if systype_is_3k then 0x0301 else 0x0901)
    root_device =
        unfold read_root_dev read_device in
        rw
          (
            device_byte 0x23 (omega arith) (omega arith),
            device_byte 0x24 (omega arith) (omega arith),
            reads.10,
            reads.11,
          )
          (number systype_is_3k)

    version : read_byte version_place now ≡ max 1 (read_byte version_place r.nvram)
    version = upgraded-version v_maj v_min v_rev systype_is_3k before ∙ ap (λ t. max 1 t) reads.7
