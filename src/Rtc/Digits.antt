-- ===== src/Rtc/Digits.antt =====
-- The two digits of a number: packed in a register of the clock, in text, and as they are printed.
use cobalt_rom.Prelude.{
  ℕ, ◌+◌, ◌/◌, ◌%◌, ◌<◌, ◌≡◌, refl, ap, Bool, true, false, ◌&&◌, Option, none, some, ◌==◌, ==_iff,
  bit_and, List, [], ◌∷◌, ◌++◌, arith,
}
use cobalt_rom.Prelude.Bits.{all_below, all_below-true}
use cobalt_rom.Text.{stoli, hex_loop, dec_loop, within, hexatoi, isdigit}
use cobalt_rom.Strbuf.{init, store, append, append_chars, appendc, realloc, takes_more}
use cobalt_rom.Printf.{
  append_each, conv_alt_val, digit_chars, digits, fill, has_flag, hash_chars, more_digits, pad_char,
  precision, put_number, sign_chars, sprintf_num,
}
use cobalt_rom.Printf.Scan.{
  printf, sprintf_core, rounds, step, directive, scan_conv, scan_width, scan_flags, is_flag,
  scan_precis, scan_mod, convert, put_string, sprintf_string, c_string, put_char, put_each, put_int,
  put_word, putc, puts, scan_number, string_chars, string_of, word_arg, put_low,
}
use cobalt_rom.Rtc.{bcd2bin, bin2bcd, print_two, print_day, print_stamp}

-- A number below 100 as two characters.
abbrev pub two : ℕ → List ℕ
two v = (48 + v / 10) ∷ (48 + v % 10) ∷ []

-- Year, month, day of the month, day of the week, hour, minute and second.
abbrev pub stamp : ℕ → ℕ → ℕ → ℕ → ℕ → ℕ → ℕ → List ℕ
stamp y mo d w h mi sc = two y ++ two mo ++ two d ++ ((48 + w) ∷ []) ++ two h ++ two mi ++ two sc

abbrev same : List ℕ → List ℕ → Bool
same [] [] = true
same [] (y ∷ ys) = false
same (x ∷ xs) [] = false
same (x ∷ xs) (y ∷ ys) = (x == y) && same xs ys

same-eq : (xs ys : List ℕ) → same xs ys ≡ true → xs ≡ ys
same-eq [] [] h = refl
same-eq [] (y ∷ ys) h = absurd (ground arith)
same-eq (x ∷ xs) [] h = absurd (ground arith)
same-eq (x ∷ xs) (y ∷ ys) h =
    let first : x ≡ y = ground (arith, h) in
    let rest : same xs ys ≡ true = ground (arith, h) in rw (first, same-eq xs ys rest) refl

abbrev prints : Option (List ℕ) → List ℕ → Bool
prints none ys = false
prints (some xs) ys = same xs ys

prints-some : (o : Option (List ℕ)) (ys : List ℕ) → prints o ys ≡ true → o ≡ some ys
prints-some none ys h = absurd (ground (arith, h))
prints-some (some xs) ys h = ap some (same-eq xs ys h)

every_print_two : all_below 100 (λ v. prints (print_two v) (two v)) ≡ true
unfolding all_below print_two printf init sprintf_core rounds step directive scan_conv scan_width
    scan_flags is_flag isdigit scan_precis scan_mod convert put_string sprintf_string append
    c_string put_char put_each put_int put_word putc puts scan_number string_chars string_of
    word_arg append_each conv_alt_val digit_chars digits fill has_flag hash_chars more_digits
    pad_char precision put_number sign_chars sprintf_num append_chars appendc realloc store
    takes_more put_low
every_print_two = refl

every_print_day : all_below 10 (λ w. prints (print_day w) ((48 + w) ∷ [])) ≡ true
unfolding all_below print_day printf init sprintf_core rounds step directive scan_conv scan_width
    scan_flags is_flag isdigit scan_precis scan_mod convert put_string sprintf_string append
    c_string put_char put_each put_int put_word putc puts scan_number string_chars string_of
    word_arg append_each conv_alt_val digit_chars digits fill has_flag hash_chars more_digits
    pad_char precision put_number sign_chars sprintf_num append_chars appendc realloc store
    takes_more put_low
every_print_day = refl

abbrev reads : ℕ × ℕ → ℕ → Bool
reads r v = (r.0 == 0) && (r.1 == v)

every_two : all_below 100 (λ v. reads (stoli (two v)) v) ≡ true
unfolding all_below stoli hex_loop dec_loop within hexatoi isdigit
every_two = refl

every_day : all_below 10 (λ w. reads (stoli ((48 + w) ∷ [])) w) ≡ true
unfolding all_below stoli hex_loop dec_loop within hexatoi isdigit
every_day = refl

-- The packed digits, as the register keeps them, under the two masks.
every_bcd : all_below 100 (λ v. bcd2bin (bit_and (bin2bcd v % 256 % 256) 0xff) == v) ≡ true
unfolding all_below bcd2bin bin2bcd
every_bcd = refl

every_day_bcd : all_below 10 (λ w. bcd2bin (bit_and (bin2bcd w % 256 % 256) 0xf) == w) ≡ true
unfolding all_below bcd2bin bin2bcd
every_day_bcd = refl

reads-eq : (r : ℕ × ℕ) (v : ℕ) → reads r v ≡ true → r ≡ (0, v)
reads-eq (a, b) v h =
    let first : a ≡ 0 = ground (arith, h) in
    let second : b ≡ v = ground (arith, h) in rw (first, second) refl

print_two_lem : (v : ℕ) → v < 100 → print_two v ≡ some (two v)
print_two_lem v h = prints-some _ _ (all_below-true 100 _ v every_print_two h)

print_day_lem : (w : ℕ) → w < 10 → print_day w ≡ some ((48 + w) ∷ [])
print_day_lem w h = prints-some _ _ (all_below-true 10 _ w every_print_day h)

pub stoli-two : (v : ℕ) → v < 100 → stoli (two v) ≡ (0, v)
stoli-two v h = reads-eq _ _ (all_below-true 100 _ v every_two h)

pub stoli-day : (w : ℕ) → w < 10 → stoli ((48 + w) ∷ []) ≡ (0, w)
stoli-day w h = reads-eq _ _ (all_below-true 10 _ w every_day h)

pub bcd_two : (v : ℕ) → v < 100 → bcd2bin (bit_and (bin2bcd v % 256 % 256) 0xff) ≡ v
bcd_two v h = (==_iff _ _).0 (all_below-true 100 _ v every_bcd h)

pub bcd_day : (w : ℕ) → w < 10 → bcd2bin (bit_and (bin2bcd w % 256 % 256) 0xf) ≡ w
bcd_day w h = (==_iff _ _).0 (all_below-true 10 _ w every_day_bcd h)

pub print_stamp_lem :
    (y mo d w h mi sc : ℕ)
    → y < 100
    → mo < 100
    → d < 100
    → w < 10
    → h < 100
    → mi < 100
    → sc < 100
    → print_stamp y mo d w h mi sc ≡ some (stamp y mo d w h mi sc ++ 10 ∷ 13 ∷ [])
unfolding print_stamp putc
print_stamp_lem y mo d w h mi sc hy hmo hd hw hh hmi hsc =
    rw
      (
        print_two_lem y hy,
        print_two_lem mo hmo,
        print_two_lem d hd,
        print_day_lem w hw,
        print_two_lem h hh,
        print_two_lem mi hmi,
        print_two_lem sc hsc,
      )
      refl
