-- ===== src/Text.antt =====
-- The string functions of x86/common/string.c, with the macros of x86/include/string.h and the
-- character classes of x86/common/ctype.c. A string is the list of its characters without the NUL.
mod Tests
pub mod Compare
pub mod Hex
pub mod Memory
use cobalt_rom.Prelude.{
  ℕ, zero, suc, ◌+◌, ◌-◌, ◌*◌, ◌/◌, ◌%◌, ◌^◌, ◌≤◌, ◌<◌, max, min, ◌≡◌, ◌≢◌, ◌↔◌, ◌⊎◌, refl, sym,
  ◌∙◌, ap, inl, inr, Bool, true, false, not, ◌||◌, ◌&&◌, Bool-cases, Option, none, some,
  Option-cases, ltb, leb, ◌==◌, ==_iff, ==_false_iff, if◌then◌else◌, if_intro, bit_and, bit_or,
  bit_xor, List, [], ◌∷◌, ◌++◌, length, get_or, set, take, replicate, arith, get_or_beyond,
  length-append, get_or-append_left, get_or-append_right, get_or-take, get_or-drop, drop,
  length-take, length-drop, take_all,
}

unfoldable pub isdigit : ℕ → Bool
isdigit c = leb 48 c && leb c 57

unfoldable pub isxdigit : ℕ → Bool
isxdigit c = isdigit c || (leb 65 c && leb c 70) || (leb 97 c && leb c 102)

unfoldable pub isalnum : ℕ → Bool
isalnum c = isdigit c || (leb 65 c && leb c 90) || (leb 97 c && leb c 122)

unfoldable pub isspace : ℕ → Bool
isspace c = (leb 9 c && leb c 13) || (c == 32)

unfoldable pub toupper : ℕ → ℕ
toupper x = if leb 97 x && leb x 122 then x - 0x20 else x

unfoldable pub hexatoi : ℕ → ℕ
hexatoi x = if leb 48 x && leb x 57 then x - 48 else toupper x - 65 + 10

unfoldable pub itohexa : ℕ → ℕ
itohexa x = if leb 9 x && leb x 9 then x + 48 else x + 65 - 10

-- The result is the status and the number at `addr`, which wraps at 32 bits.
unfoldable pub hex_loop : List ℕ → ℕ → ℕ × ℕ
hex_loop [] addr = (0, addr)
hex_loop (c ∷ cs) addr =
    let d = toupper c in
    let rest = hex_loop cs ((addr * 2 ^ 4 % 2 ^ 32 + hexatoi d) % 2 ^ 32) in
    if isxdigit d then rest else (1, addr)

unfoldable pub dec_loop : List ℕ → ℕ → ℕ × ℕ
dec_loop [] addr = (0, addr)
dec_loop (c ∷ cs) addr =
    let rest = dec_loop cs ((addr * 10 + hexatoi c) % 2 ^ 32) in
    if isdigit c then rest else (1, addr)

-- The limits on the characters that the loop counts.
unfoldable pub within : Bool → ℕ × ℕ → ℕ × ℕ
within fits r = if r.0 == 0 && not fits then (1, r.1) else r

-- The string has less than 256 characters, as many as `ctr` counts without a wrap. The hexadecimal
-- loop also stores each character in upper case in the caller's string, which is left out.
unfoldable pub stoli : List ℕ → ℕ × ℕ
stoli val =
    if (get_or val 1 0 == 120) || (get_or val 1 0 == 88)
    then within (not (ltb 10 (length val) || (length val == 2))) (hex_loop (drop 2 val) 0)
    else within (not (ltb 12 (length val))) (dec_loop val 0)

-- The two characters whose difference is the result.
unfoldable pub strcmp : List ℕ → List ℕ → ℕ × ℕ
strcmp [] [] = (0, 0)
strcmp [] (y ∷ ys) = (0, y)
strcmp (x ∷ xs) [] = (x, 0)
strcmp (x ∷ xs) (y ∷ ys) = if x == y then strcmp xs ys else (x, y)

unfoldable pub strncmp : List ℕ → List ℕ → ℕ → ℕ × ℕ
strncmp xs ys zero = (0, 0)
strncmp [] [] (suc n) = (0, 0)
strncmp [] (y ∷ ys) (suc n) = (0, y)
strncmp (x ∷ xs) [] (suc n) = (x, 0)
strncmp (x ∷ xs) (y ∷ ys) (suc n) = if x == y then strncmp xs ys n else (x, y)

-- The test `!strcmp(...)`.
abbrev pub is_zero : ℕ × ℕ → Bool
is_zero d = d.0 == d.1

-- The digits of itohexs from the most significant of the `n` that are left.
unfoldable pub hex_string : ℕ → ℕ → List ℕ
hex_string zero val = []
hex_string (suc n) val = itohexa (val / 2 ^ (n * 4) % 16) ∷ hex_string n val

unfoldable pub itohexs : ℕ → ℕ → List ℕ
itohexs val type = 48 ∷ 120 ∷ hex_string type val

unfoldable pub printable : ℕ → ℕ
printable c = if ltb 0x1f c && ltb c 0x7f then c else 0x2e

-- Four bytes of `str2`, whatever they are, after the characters of `str1`.
unfoldable pub catpstr : List ℕ → (ℕ → ℕ) → List ℕ
catpstr str1 str2 =
    str1 ++ printable (str2 0) ∷ printable (str2 1) ∷ printable (str2 2) ∷ printable (str2 3) ∷ []
