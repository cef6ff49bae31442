-- ===== src/Printf.antt =====
-- The conversion of numbers in x86/common/printf.c: sprintf_num and sprintf_ll_num, with the
-- structure for a conversion.
mod Tests
pub mod Digits
pub mod Number
pub mod Wide
pub mod Scan
use cobalt_rom.Prelude.{
  ℕ, zero, suc, ◌+◌, ◌-◌, ◌*◌, ◌/◌, ◌%◌, ◌^◌, ◌≤◌, ◌<◌, max, min, ◌≡◌, ◌≢◌, ◌↔◌, ◌⊎◌, refl, sym,
  ◌∙◌, ap, inl, inr, Bool, true, false, not, ◌||◌, ◌&&◌, Bool-cases, Option, none, some,
  Option-cases, ltb, leb, ◌==◌, ==_iff, ==_false_iff, if◌then◌else◌, if_intro, bit_and, bit_or,
  bit_xor, List, [], ◌∷◌, ◌++◌, length, get_or, set, take, replicate, arith, get_or_beyond,
  length-append, get_or-append_left, get_or-append_right, get_or-take, get_or-drop, drop,
  length-take, length-drop, take_all,
}
use cobalt_rom.Strbuf.{Strbuf, append, appendc}

infixl 10 ◌>>=◌
abbrev ◌>>=◌ : {A B : Type 0} → Option A → (A → Option B) → Option B
none >>= f = none
some a >>= f = f a

abbrev pub alt_hash : ℕ
alt_hash = 1

abbrev pub alt_zero : ℕ
alt_zero = 2

abbrev pub alt_minus : ℕ
alt_minus = 4

abbrev pub alt_plus : ℕ
alt_plus = 8

abbrev pub alt_space : ℕ
alt_space = 16

abbrev pub alt_upper : ℕ
alt_upper = 128

abbrev pub mod_short : ℕ
mod_short = 1

abbrev pub mod_long : ℕ
mod_long = 2

abbrev pub mod_longlong : ℕ
mod_longlong = 4

abbrev pub mod_unsigned : ℕ
mod_unsigned = 128

-- A width below 0 counts as 0, and a precision below 0 is `none`.
pub record Conv : Type 0 where
  alt : ℕ
  width : ℕ
  precis : Option ℕ
  modifier : ℕ

abbrev pub new_conv : Conv
new_conv = record { alt = 0; width = 0; precis = none; modifier = 0 }

unfoldable pub has_flag : ℕ → ℕ → Bool
has_flag flags f = not (bit_and flags f == 0)

unfoldable pub conv_alt_val : ℕ → ℕ
conv_alt_val c =
    if c == 35
    then alt_hash
    else if c == 48
    then alt_zero
    else if c == 45
    then alt_minus
    else if c == 43
    then alt_plus
    else if c == 32
    then alt_space
    else 0

-- The last place of `nbuf` has its NUL, so the others take this many characters.
abbrev pub nbuf_chars : ℕ
nbuf_chars = 127

-- "0123456789ABCDEF" or "0123456789abcdef"
unfoldable pub digit_chars : Bool → List ℕ
digit_chars upper =
    48
    ∷ 49
    ∷ 50
    ∷ 51
    ∷ 52
    ∷ 53
    ∷ 54
    ∷ 55
    ∷ 56
    ∷ 57
    ∷ (if upper then 65 ∷ 66 ∷ 67 ∷ 68 ∷ 69 ∷ 70 ∷ [] else 97 ∷ 98 ∷ 99 ∷ 100 ∷ 101 ∷ 102 ∷ [])

-- The loop that writes the digits from the right, `out` being what `nbuf` has so far. The fuel is
-- one more than the places that are left; `none` is a character before the start of `nbuf`.
unfoldable pub more_digits : ℕ → List ℕ → ℕ → ℕ → List ℕ → Option (List ℕ)
more_digits zero chars base n out = none
more_digits (suc f) chars base n out =
    let rest = more_digits f chars base (n / base) (get_or chars (n % base) 0 ∷ out) in
    if n == 0 then some out else rest

unfoldable pub digits : List ℕ → ℕ → ℕ → Option (List ℕ)
digits chars base n = more_digits nbuf_chars chars base (n / base) (get_or chars (n % base) 0 ∷ [])

-- The loops that fill up `nbuf` on the left for a precision or a width.
unfoldable pub fill : ℕ → ℕ → List ℕ → Option (List ℕ)
fill zero c out = some out
fill (suc n) c out = if ltb (length out) nbuf_chars then fill n c (c ∷ out) else none

-- The characters before the number; for `#` the code tests a pointer that is still NULL.
unfoldable pub sign_chars : Conv → Bool → List ℕ
sign_chars c isneg =
    if has_flag c.modifier mod_unsigned
    then []
    else if isneg
    then 45 ∷ []
    else if has_flag c.alt alt_plus
    then 43 ∷ []
    else if has_flag c.alt alt_space
    then 32 ∷ []
    else []

unfoldable pub hash_chars : Conv → ℕ → List ℕ
hash_chars c base =
    if has_flag c.alt alt_hash
    then (if base == 16
        then 48 ∷ (if has_flag c.alt alt_upper then 88 else 120) ∷ []
        else if base == 8
        then 48 ∷ []
        else [])
    else []

unfoldable pub append_each : List ℕ → Strbuf → Option Strbuf
append_each [] s = some s
append_each (c ∷ cs) s = appendc c s >>= append_each cs

unfoldable pub precision : Conv → ℕ
precision c = elim c.precis [ some p ↦ p | none ↦ 0 ]

unfoldable pub pad_char : Conv → ℕ
pad_char c = elim c.precis [ some p ↦ 32 | none ↦ if has_flag c.alt alt_zero then 48 else 32 ]

-- What the code does when it has the sign and the number.
unfoldable pub put_number : Strbuf → Conv → ℕ → Bool → ℕ → Option Strbuf
put_number s c base isneg n = do
  let prefix = sign_chars c isneg ++ hash_chars c base
  signed ← append_each prefix s
  ds ← digits (digit_chars (has_flag c.alt alt_upper)) base n
  zeros ← fill (precision c - length ds) 48 ds
  let width = c.width - length prefix - length zeros
  if has_flag c.alt alt_minus
      then append zeros signed >>= append_each (replicate width 32)
      else fill width (pad_char c) zeros >>= λ padded. append padded signed

-- `num` is the 32 bits of the argument.
unfoldable pub sprintf_num : Strbuf → Conv → ℕ → ℕ → Option Strbuf
sprintf_num s c num base =
    let isneg = not (has_flag c.modifier mod_unsigned) && leb (2 ^ 31) num in
    let positive = if isneg then (2 ^ 32 - num) % 2 ^ 32 else num in
    let n = if has_flag c.modifier mod_short then positive % 2 ^ 16 else positive in
    if ltb base 2 || ltb 16 base then some s else put_number s c base isneg n

-- `num` is the 64 bits of the argument.
unfoldable pub sprintf_ll_num : Strbuf → Conv → ℕ → ℕ → Option Strbuf
sprintf_ll_num s c num base =
    let isneg = not (has_flag c.modifier mod_unsigned) && leb (2 ^ 63) num in
    let n = if isneg then (2 ^ 64 - num) % 2 ^ 64 else num in
    if ltb base 2 || ltb 16 base then some s else put_number s c base isneg n
