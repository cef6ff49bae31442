-- ===== src/Printf/Tests.antt =====
-- Numbers printed into a string buffer, at concrete numbers.
use cobalt_rom.Prelude.{ℕ, ◌+◌, ◌<◌, ◌≡◌, refl, some, List, [], ◌∷◌, arith}
use cobalt_rom.Text.{stoli}
use cobalt_rom.Strbuf.{grow, Strbuf}
use cobalt_rom.Strbuf.Holds.{Holds}
use cobalt_rom.Printf.{new_conv, mod_unsigned, mod_long, has_flag, sprintf_num}
use cobalt_rom.Printf.Number.{stoli-sprintf_num}
use cobalt_rom.Text.{isdigit}
use cobalt_rom.Strbuf.{init, store, append, appendc, append_chars, realloc, takes_more}
use cobalt_rom.Printf.{
  put_number, digits, more_digits, fill, sign_chars, hash_chars, append_each, precision, pad_char,
  conv_alt_val, digit_chars,
}
use cobalt_rom.Printf.Scan.Pieces.{string, plain, single, snprintf-pieces}
use cobalt_rom.Printf.Scan.Grammar.{l_length, flags_value, scan_conv_lem}
use cobalt_rom.Printf.Scan.{
  word, chars, Job, snprintf, print_bytes, find_unit, sprintf, vsnprintf, sprintf_core, rounds,
  step, directive, scan_conv, scan_width, scan_precis, scan_mod, scan_flags, scan_number, convert,
  put_int, put_word, word_arg, put_low, put_char, c_string, is_flag,
}

abbrev empty : Strbuf
empty = record { len = 0; max = grow; room = 1; buf = λ i. 0 }

stoli-sprintf_num_example :
    (ds : List ℕ) × (s' : Strbuf) × (sprintf_num empty
        (record new_conv { modifier = mod_unsigned })
        4294967295
        10
      ≡ some s')
    × Holds s' ds
    × (stoli ds ≡ (0, 4294967295))
stoli-sprintf_num_example =
    stoli-sprintf_num 4294967295 [] empty (omega arith)
      ((refl, λ k lt. absurd (omega (arith, lt))), refl, omega arith, tt) tt

print_run : print_bytes 65536 ≡ some (54 ∷ 52 ∷ 75 ∷ [])
unfolding print_bytes find_unit sprintf vsnprintf sprintf_core rounds step directive scan_conv
    scan_width scan_precis scan_mod scan_flags convert put_int put_word word_arg put_low put_char
    c_string sprintf_num put_number has_flag init store append appendc append_chars realloc
    takes_more digits more_digits fill sign_chars hash_chars append_each precision pad_char is_flag
    conv_alt_val digit_chars isdigit scan_number
print_run = refl

-- "hi"
abbrev hi : List ℕ
hi = 104 ∷ 105 ∷ []

-- "%s-%c" into a buffer of 4 characters.
snprintf-pieces_example :
    (j : Job) × (snprintf
        (8, λ k. 7)
        (3 + 1)
        (37 ∷ 115 ∷ 45 ∷ 37 ∷ 99 ∷ [])
        (chars (some hi) ∷ word 33 ∷ [])
      ≡ some j)
    × Holds j.out (104 ∷ 105 ∷ 45 ∷ [])
    × ((k : ℕ) → 3 < k → j.out.buf k ≡ 7)
snprintf-pieces_example =
    snprintf-pieces 3 8 (λ k. 7) (string hi ∷ plain 45 ∷ single 33 ∷ []) (omega arith)
      (refl, refl, (omega arith, refl, tt))

-- "%-12.3lx"
scan_conv_example :
    scan_conv (45 ∷ 49 ∷ 50 ∷ 46 ∷ 51 ∷ 108 ∷ 120 ∷ []) []
    ≡ some (record {
      conv = record {
        alt = flags_value (45 ∷ []) 0;
        width = 12;
        precis = some 3;
        modifier = mod_long;
      };
      left = 120 ∷ [];
      args = [];
    })
unfolding is_flag isdigit
scan_conv_example =
    scan_conv_lem (45 ∷ []) (49 ∷ 50 ∷ []) (some (51 ∷ [])) l_length 120 [] [] (refl, tt)
      (refl, ((refl, (refl, tt)), omega arith)) ((refl, tt), omega arith)
      (refl, refl, refl, refl, refl, refl, refl)
