-- ===== src/Rtc/Tests.antt =====
-- The clock at a small device with an address latch and registers.
use cobalt_rom.Prelude.{ℕ, ◌%◌, ◌≡◌, refl, some, ◌==◌, if◌then◌else◌, [], ◌∷◌, ◌++◌, arith}
use cobalt_rom.Text.{isdigit}
use cobalt_rom.Strbuf.{init, store, append, append_chars, appendc, realloc, takes_more}
use cobalt_rom.Printf.{
  append_each, conv_alt_val, digit_chars, digits, fill, has_flag, hash_chars, more_digits, pad_char,
  precision, put_number, sign_chars, sprintf_num,
}
use cobalt_rom.Printf.Scan.{
  sprintf, vsnprintf, sprintf_core, rounds, step, directive, scan_conv, scan_width, scan_flags,
  is_flag, scan_precis, scan_mod, convert, put_string, sprintf_string, c_string, put_char, put_int,
  put_word, scan_number, string_chars, word_arg, put_low,
}
use cobalt_rom.Rtc.Date.{date_text, two_at, print_at, month_name}
use cobalt_rom.Rtc.{ok, read_rtc_func, write_rtc_func}
use cobalt_rom.Rtc.Digits.{stamp}
use cobalt_rom.Rtc.Stamp.{read_rtc_func-write_rtc_func}

abbrev Device : Type 0
Device = ℕ × (ℕ → ℕ)

abbrev device_out : ℕ → ℕ → Device → Device
device_out v port s =
    if port == 0x70
    then (v, s.1)
    else if port == 0x71
    then (s.0, λ j. if j == s.0 then v % 256 else s.1 j)
    else s

abbrev device_in : ℕ → Device → ℕ
device_in port s = if port == 0x71 then s.1 s.0 else 0

abbrev blank : Device
blank = (0, λ j. 0x74)

-- 2003-06-10, a Tuesday, 22:42:03.
read_rtc_func-write_rtc_func_example :
    (set shown : Device) × (write_rtc_func device_out device_in 2 (stamp 3 6 10 2 22 42 3) blank
      ≡ (ok, set))
    × (read_rtc_func device_out device_in 1 set
        ≡ some (ok, stamp 3 6 10 2 22 42 3 ++ 10 ∷ 13 ∷ [], shown))
read_rtc_func-write_rtc_func_example =
    read_rtc_func-write_rtc_func device_out device_in (λ s j. s.1 j) (λ i j s. refl) (λ i s. refl)
      (λ i v j s lt. refl) 3 6 10 2 22 42 3 blank (omega arith) (omega arith) (omega arith)
      (omega arith) (omega arith) (omega arith) (omega arith)

-- "Jun 10 22:42:03 UTC 2003", over a buffer of other bytes.
date_run :
    date_text 6 10 22 42 3 3 (λ i. 120)
    ≡ some (
        74 ∷ 117 ∷ 110 ∷ 32 ∷ 49 ∷ 48 ∷ 32 ∷ 50 ∷ 50 ∷ 58 ∷ 52 ∷ 50 ∷ 58 ∷ 48 ∷ 51 ∷ 32 ∷ 85 ∷ 84
        ∷ 67 ∷ 32 ∷ 50 ∷ 48 ∷ 48 ∷ 51 ∷ [])
unfolding date_text two_at print_at month_name sprintf vsnprintf sprintf_core rounds step directive
    scan_conv scan_width scan_flags is_flag isdigit scan_precis scan_mod convert put_string
    sprintf_string append c_string put_char put_int put_word scan_number string_chars word_arg
    append_each conv_alt_val digit_chars digits fill has_flag hash_chars more_digits pad_char
    precision put_number sign_chars sprintf_num append_chars appendc realloc store takes_more
    put_low init
date_run = refl
