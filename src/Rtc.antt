-- ===== src/Rtc.antt =====
-- The clock: x86/common/rtc.c with the macros of x86/include/common/rtc.h, and the commands of
-- x86/monitor/rtc.c. The ports are a parameter: `outb` of a byte and a port, and `inb` of a port,
-- which changes nothing at the ports that this code reads.
pub mod Date
pub mod Digits
pub mod Init
pub mod Stamp
mod Tests
use cobalt_rom.Prelude.{
  ℕ, zero, suc, ◌+◌, ◌-◌, ◌*◌, ◌/◌, ◌%◌, ◌^◌, ◌≤◌, ◌<◌, max, min, ◌≡◌, ◌≢◌, ◌↔◌, ◌⊎◌, refl, sym,
  ◌∙◌, ap, inl, inr, Bool, true, false, not, ◌||◌, ◌&&◌, Bool-cases, Option, none, some,
  Option-cases, ltb, leb, ◌==◌, ==_iff, ==_false_iff, if◌then◌else◌, if_intro, bit_and, bit_or,
  bit_xor, List, [], ◌∷◌, ◌++◌, length, get_or, set, take, replicate, arith, get_or_beyond,
  length-append, get_or-append_left, get_or-append_right, get_or-take, get_or-drop, drop,
  length-take, length-drop, take_all,
}
use cobalt_rom.Text.{stoli}
use cobalt_rom.Printf.Scan.{word, chars, putc, printf}

infixl 10 ◌>>=◌
abbrev ◌>>=◌ : {A B : Type 0} → Option A → (A → Option B) → Option B
none >>= f = none
some a >>= f = f a

unfoldable pub bcd2bin : ℕ → ℕ
bcd2bin x = bit_and x 0xf + 10 * bit_and (x / 2 ^ 4) 0xf

unfoldable pub bin2bcd : ℕ → ℕ
bin2bcd x = x / 10 * 2 ^ 4 + x % 10

abbrev pub pm_addr_port : ℕ
pm_addr_port = 0x500

-- The results of the commands: 0, EBADNUMARGS, EBADNUM and EBADARG.
pub data Status : Type 0 where
  ok : Status
  bad_num_args : Status
  bad_num : Status
  bad_arg : Status

-- The arguments of rtc_set_vals in their order, which is that of the registers from 0 on.
pub record Vals : Type 0 where
  pub sec : ℕ
  pub alarm_sec : ℕ
  pub minute : ℕ
  pub alarm_minute : ℕ
  pub hour : ℕ
  pub alarm_hour : ℕ
  pub day_of_week : ℕ
  pub day_of_month : ℕ
  pub month : ℕ
  pub year : ℕ

-- The date of a first boot.
unfoldable pub first_vals : Vals
first_vals = record {
  sec = 0;
  alarm_sec = 0;
  minute = bin2bcd 59;
  alarm_minute = 0;
  hour = bin2bcd 10;
  alarm_hour = 0;
  day_of_week = bin2bcd 3;
  day_of_month = bin2bcd 2;
  month = bin2bcd 3;
  year = bin2bcd 76;
}

-- "%s%d" with a "0" for a number of one digit, as it goes out on the serial line.
unfoldable pub print_two : ℕ → Option (List ℕ)
print_two tmp =
    elim (printf (37 ∷ 115 ∷ 37 ∷ 100 ∷ [])
      (chars (some (if ltb tmp 10 then 48 ∷ [] else [])) ∷ word tmp ∷ [])) [
        | some r ↦ some r.1
        | none ↦ none
      ]

unfoldable pub print_day : ℕ → Option (List ℕ)
print_day tmp = elim (printf (37 ∷ 100 ∷ []) (word tmp ∷ [])) [ some r ↦ some r.1 | none ↦ none ]

-- The calls of printf, from the year to the new line.
unfoldable pub print_stamp : ℕ → ℕ → ℕ → ℕ → ℕ → ℕ → ℕ → Option (List ℕ)
print_stamp y mo d w h mi sc = do
  year ← print_two y
  month ← print_two mo
  day ← print_two d
  week_day ← print_day w
  hour ← print_two h
  minute ← print_two mi
  sec ← print_two sc
  some (year ++ month ++ day ++ week_day ++ hour ++ minute ++ sec ++ putc 10)

-- Two characters of the argument; strdup succeeds.
abbrev pub part : ℕ → ℕ → List ℕ → ℕ × ℕ
part i n arg = stoli (take n (drop i arg))

module _ {S : Type 0} (outb : ℕ → ℕ → S → S) (inb : ℕ → S → ℕ) where
  unfoldable pub write_rtc : ℕ → ℕ → ℕ → S → S
  write_rtc base index value s = outb value (base + 1) (outb index base s)

  unfoldable pub read_rtc : ℕ → ℕ → S → ℕ × S
  read_rtc base index s = let s1 = outb index base s in (inb (base + 1) s1, s1)

  unfoldable pub select_bank : ℕ → ℕ → S → ℕ × S
  select_bank base bank s =
      let s1 = outb 0x0a base s in
      let oldbank = inb (base + 1) s1 in
      (bit_and oldbank 0x50, outb (bit_or (bit_and oldbank 0x8f) bank) (base + 1) s1)

  unfoldable pub get_base : ℕ → ℕ → S → ℕ × S
  get_base dev start s =
      let (low, s1) = read_rtc dev start s in
      let (high, s2) = read_rtc dev (start + 1) s1 in (bit_or low (high * 2 ^ 8), s2)

  unfoldable pub set_fer2 : ℕ → ℕ → S → ℕ × S
  set_fer2 base value s = let (val, s1) = read_rtc base 0x01 s in (val, outb value (base + 1) s1)

  -- Calls of write_rtc, one after the other.
  unfoldable pub write_each : List (ℕ × ℕ) → S → S
  write_each [] s = s
  write_each ((index, value) ∷ ws) s = write_each ws (write_rtc 0x70 index value s)

  -- Stores from the port `base` on, unless there is none.
  unfoldable pub clear_base : ℕ → List (ℕ × ℕ) → S → S
  clear_base base [] s = s
  clear_base base ((value, port) ∷ ws) s =
      if base == 0 then s else clear_base base ws (outb value (base + port) s)

  unfoldable pub rtc_reset : S → S
  rtc_reset s =
      let (val, s1) = select_bank 0x70 1 s in
      let s2 = write_each ((0x48, 0) ∷ (0x49, 0) ∷ (0x4a, 0) ∷ []) s1 in
      let (_, s3) = select_bank 0x70 2 s2 in
      let s4 = write_each ((0x40, 0) ∷ (0x41, 0) ∷ []) s3 in
      let (_, s5) = read_rtc 0x70 0x42 s4 in
      let s6 =
        write_each
          ((0x43, 0xc0)
            ∷ (0x44, 0xc0)
            ∷ (0x45, 0xc0)
            ∷ (0x46, 0xc0)
            ∷ (0x47, 0xc0)
            ∷ (0x48, 0xc0)
            ∷ (0x49, 0xa0)
            ∷ (0x4a, 0x2d)
            ∷ (0x4b, 0x2d)
            ∷ (0x4c, 0xad)
            ∷ (0x4d, 0x15)
            ∷ (0x4f, 0xc9)
            ∷ (0x50, 0xca)
            ∷ (0x51, 0xc8)
            ∷ [])
          s5 in
      let (_, s7) = select_bank 0x70 val s6 in
      let (fer2, s8) = set_fer2 pm_addr_port 0x78 s7 in
      let (evt, s9) = get_base pm_addr_port 0x08 s8 in
      let s10 = clear_base evt ((0xff, 0) ∷ (0xff, 1) ∷ (0xff, 2) ∷ (0, 3) ∷ []) s9 in
      let (ctl, s11) = get_base pm_addr_port 0x0c s10 in
      let s12 = clear_base ctl ((0, 0) ∷ (0, 1) ∷ []) s11 in
      let (gp1, s13) = get_base pm_addr_port 0x0e s12 in
      let s14 = clear_base gp1 ((0xff, 0) ∷ (0, 4) ∷ (0, 8) ∷ []) s13 in
      let (_, s15) = set_fer2 pm_addr_port fer2 s14 in s15

  unfoldable pub rtc_begin_set : S → S
  rtc_begin_set s = let s1 = outb 0x0b 0x70 s in outb (bit_or (inb 0x71 s1) 0x80) 0x71 s1

  unfoldable pub rtc_end_set : S → S
  rtc_end_set s = let s1 = outb 0x0b 0x70 s in outb (bit_and (inb 0x71 s1) 0x7f) 0x71 s1

  unfoldable pub rtc_set_vals : Vals → S → S
  rtc_set_vals v s = rtc_end_set (
      write_each
        ((0x0, v.sec % 256)
          ∷ (0x1, v.alarm_sec % 256)
          ∷ (0x2, v.minute % 256)
          ∷ (0x3, v.alarm_minute % 256)
          ∷ (0x4, v.hour % 256)
          ∷ (0x5, v.alarm_hour % 256)
          ∷ (0x6, v.day_of_week % 256)
          ∷ (0x7, v.day_of_month % 256)
          ∷ (0x8, v.month % 256)
          ∷ (0x9, v.year % 256)
          ∷ [])
        (rtc_begin_set s))

  -- The date and the status registers A, B and D of a first boot.
  unfoldable pub set_first : S → S
  set_first s =
      write_each ((0x0a, 0x26) ∷ (0x0b, 0x02) ∷ (0x0d, 0x26) ∷ []) (rtc_set_vals first_vals s)

  unfoldable pub rtc_set_defaults : S → S
  rtc_set_defaults s = rtc_end_set (set_first (rtc_begin_set s))

  unfoldable pub rtc_init : Bool → Bool → S → S
  rtc_init first_boot monterey s =
      let s1 = rtc_begin_set s in
      let reset = if monterey then rtc_reset s1 else s1 in
      let sa = outb 0x0a 0x70 s1 in
      let sb = outb 0x0b 0x70 (outb (bit_and (bit_or 0x26 (inb 0x71 sa)) 0xaf) 0x71 sa) in
      rtc_end_set
        (if first_boot then set_first reset else outb (bit_and (inb 0x71 sb) 0xdb) 0x71 sb)

  -- A register as a number. The commands and rtc_get_datestr mask it by 0xff, or by 0xf for the day
  -- of the week.
  unfoldable pub read_bin : ℕ → ℕ → S → ℕ × S
  read_bin index mask s = let (tmp, s1) = read_rtc 0x70 index s in (bcd2bin (bit_and tmp mask), s1)

  -- The result, the characters on the serial line, and the ports.
  unfoldable pub read_rtc_func : ℕ → S → Option (Status × List ℕ × S)
  read_rtc_func argc s =
      let (y, s1) = read_bin 0x9 0xff s in
      let (mo, s2) = read_bin 0x8 0xff s1 in
      let (d, s3) = read_bin 0x7 0xff s2 in
      let (w, s4) = read_bin 0x6 0xf s3 in
      let (h, s5) = read_bin 0x4 0xff s4 in
      let (mi, s6) = read_bin 0x2 0xff s5 in
      let (sc, s7) = read_bin 0x0 0xff s6 in
      let printed = print_stamp y mo d w h mi sc in
      if argc == 1
      then elim printed [ some out ↦ some (ok, out, s7) | none ↦ none ]
      else some (bad_num_args, [], s)

  -- `arg` is argv[1]; no argument has more than 255 characters.
  unfoldable pub write_rtc_func : ℕ → List ℕ → S → Status × S
  write_rtc_func argc arg s =
      let year = part 0 2 arg in
      let month = part 2 2 arg in
      let day_of_month = part 4 2 arg in
      let day_of_week = part 6 1 arg in
      let hour = part 7 2 arg in
      let minute = part 9 2 arg in
      let sec = part 11 2 arg in
      let vals : Vals = record {
        sec = bin2bcd (sec.1);
        alarm_sec = 0;
        minute = bin2bcd (minute.1);
        alarm_minute = 0;
        hour = bin2bcd (hour.1);
        alarm_hour = 0;
        day_of_week = bin2bcd (day_of_week.1);
        day_of_month = bin2bcd (day_of_month.1);
        month = bin2bcd (month.1);
        year = bin2bcd (year.1);
      } in
      let wrong =
        not (year.0 == 0)
        || not (month.0 == 0)
        || not (day_of_month.0 == 0)
        || not (day_of_week.0 == 0)
        || not (hour.0 == 0)
        || not (minute.0 == 0)
        || not (sec.0 == 0) in
      if not (argc == 2)
      then (bad_num_args, s)
      else if not (length arg == 13)
      then (bad_arg, s)
      else if wrong
      then (bad_num, s)
      else (ok, rtc_set_vals vals s)
