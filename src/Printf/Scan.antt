-- ===== src/Printf/Scan.antt =====
-- The scan of a format in x86/common/printf.c: sprintf_core, with printf, sprintf, snprintf, puts,
-- putc and print_bytes.
pub mod Text
pub mod Within
pub mod Limit
pub mod Pieces
pub mod Grammar
use cobalt_rom.Prelude.{
  ℕ, zero, suc, ◌+◌, ◌-◌, ◌*◌, ◌/◌, ◌%◌, ◌^◌, ◌≤◌, ◌<◌, max, min, ◌≡◌, ◌≢◌, ◌↔◌, ◌⊎◌, refl, sym,
  ◌∙◌, ap, inl, inr, Bool, true, false, not, ◌||◌, ◌&&◌, Bool-cases, Option, none, some,
  Option-cases, ltb, leb, ◌==◌, ==_iff, ==_false_iff, if◌then◌else◌, if_intro, bit_and, bit_or,
  bit_xor, List, [], ◌∷◌, ◌++◌, length, get_or, set, take, replicate, arith, get_or_beyond,
  length-append, get_or-append_left, get_or-append_right, get_or-take, get_or-drop, drop,
  length-take, length-drop, take_all,
}
use cobalt_rom.Text.{isdigit}
use cobalt_rom.Strbuf.{Max, grow, fixed, upto, Strbuf, init, append, appendc}
use cobalt_rom.Printf.{
  Conv, new_conv, alt_hash, alt_zero, alt_upper, mod_short, mod_long, mod_longlong, mod_unsigned,
  has_flag, conv_alt_val, sprintf_num, sprintf_ll_num,
}

infixl 10 ◌>>=◌
abbrev pub ◌>>=◌ : {A B : Type 0} → Option A → (A → Option B) → Option B
none >>= f = none
some a >>= f = f a

-- An argument after the format: the 32 or 64 bits of a number, a string, where `none` is NULL, or
-- the address for `%n`.
pub data Arg : Type 0 where
  word : ℕ → Arg
  wide : ℕ → Arg
  chars : Option (List ℕ) → Arg
  place : Arg

-- The buffer, the arguments that are left, and the numbers stored for `%n`.
pub record Job : Type 0 where
  pub out : Strbuf
  pub args : List Arg
  pub counts : List ℕ

-- The next argument; `none` is one that is missing or of another type.
unfoldable pub word_arg : List Arg → Option (ℕ × List Arg)
word_arg (word n ∷ vs) = some (n, vs)
word_arg vs = none

unfoldable pub wide_arg : List Arg → Option (ℕ × List Arg)
wide_arg (wide n ∷ vs) = some (n, vs)
wide_arg vs = none

unfoldable pub is_flag : ℕ → Bool
is_flag p = (p == 35) || ((p == 48) || ((p == 45) || ((p == 43) || (p == 32))))

unfoldable pub scan_flags : List ℕ → ℕ → ℕ × List ℕ
scan_flags [] alt = (alt, [])
scan_flags (p ∷ ps) alt =
    let rest = scan_flags ps (bit_or alt (conv_alt_val p)) in
    if is_flag p then rest else (alt, p ∷ ps)

-- An `int` of 32 bits, vs its digits are read.
unfoldable pub scan_number : List ℕ → ℕ → ℕ × List ℕ
scan_number [] n = (n, [])
scan_number (p ∷ ps) n =
    let rest = scan_number ps ((n * 10 + (p - 48)) % 2 ^ 32) in
    if isdigit p then rest else (n, p ∷ ps)

abbrev pub as_width : ℕ → ℕ
as_width n = if leb (2 ^ 31) n then 0 else n

abbrev pub as_precis : ℕ → Option ℕ
as_precis n = if leb (2 ^ 31) n then none else some n

-- A conversion under way: what is left of the format and of the arguments.
pub record Scan : Type 0 where
  pub conv : Conv
  pub left : List ℕ
  pub args : List Arg

unfoldable pub width_arg : List ℕ → List Arg → Conv → Option Scan
width_arg ps vs c = word_arg vs >>= λ a.
    some (record { conv = record c { width = as_width a.0 }; left = ps; args = a.1 })

unfoldable pub scan_width : List ℕ → List Arg → Conv → Option Scan
scan_width [] vs c = some (record { conv = c; left = []; args = vs })
scan_width (p ∷ ps) vs c =
    let (n, rest) = scan_number (p ∷ ps) 0 in
    if p == 42
    then width_arg ps vs c
    else if isdigit p
    then some (record { conv = record c { width = as_width n }; left = rest; args = vs })
    else some (record { conv = c; left = p ∷ ps; args = vs })

-- The number after the point, with a sign or without.
unfoldable pub scan_signed : List ℕ → ℕ × List ℕ
scan_signed [] = (0, [])
scan_signed (p ∷ ps) =
    let (n, rest) = scan_number ps 0 in
    if p == 45 then ((2 ^ 32 - n) % 2 ^ 32, rest) else scan_number (p ∷ ps) 0

unfoldable pub precis_arg : List ℕ → List Arg → Conv → Option Scan
precis_arg ps vs c = word_arg vs >>= λ a.
    some (record { conv = record c { precis = as_precis a.0 }; left = ps; args = a.1 })

unfoldable pub precis_value : List ℕ → List Arg → Conv → Option Scan
precis_value ps vs c =
    let (n, rest) = scan_signed ps in
    some (record { conv = record c { precis = as_precis n }; left = rest; args = vs })

unfoldable pub scan_point : List ℕ → List Arg → Conv → Option Scan
scan_point [] vs c = precis_value [] vs c
scan_point (p ∷ ps) vs c = if p == 42 then precis_arg ps vs c else precis_value (p ∷ ps) vs c

unfoldable pub scan_precis : List ℕ → List Arg → Conv → Option Scan
scan_precis [] vs c = some (record { conv = c; left = []; args = vs })
scan_precis (p ∷ ps) vs c =
    if p == 46 then scan_point ps vs c else some (record { conv = c; left = p ∷ ps; args = vs })

abbrev pub second_l : List ℕ → Bool
second_l [] = false
second_l (p ∷ ps) = p == 108

unfoldable pub scan_mod : List ℕ → Conv → Conv × List ℕ
scan_mod [] c = (c, [])
scan_mod (p ∷ ps) c =
    if p == 104
    then (record c { modifier = mod_short }, ps)
    else if (p == 76) || (p == 113)
    then (record c { modifier = mod_longlong }, ps)
    else if p == 108
    then (if second_l ps
        then (record c { modifier = mod_longlong }, drop 1 ps)
        else (record c { modifier = mod_long }, ps))
    else (c, p ∷ ps)

-- All between the `%` and the conversion specifier.
unfoldable pub scan_conv : List ℕ → List Arg → Option Scan
scan_conv fmt vs = do
  let (alt, ps) = scan_flags fmt 0
  w ← scan_width ps vs (record new_conv { alt = alt })
  s ← scan_precis w.left w.args w.conv
  let (c, left) = scan_mod s.left s.conv
  some (record s { conv = c; left = left })

abbrev pub unsigned : Conv → Conv
unsigned c = record c { modifier = bit_or c.modifier mod_unsigned }

abbrev pub with_alt : ℕ → Conv → Conv
with_alt f c = record c { alt = bit_or c.alt f }

unfoldable pub put_word : Conv → ℕ → Job → Option Job
put_word c base j = word_arg j.args >>= λ a.
    sprintf_num j.out c a.0 base >>= λ s. some (record j { out = s; args = a.1 })

unfoldable pub put_wide : Conv → ℕ → Job → Option Job
put_wide c base j = wide_arg j.args >>= λ a.
    sprintf_ll_num j.out c a.0 base >>= λ s. some (record j { out = s; args = a.1 })

unfoldable pub put_int : Conv → ℕ → Job → Option Job
put_int c base j = if has_flag c.modifier mod_longlong then put_wide c base j else put_word c base j

-- "(NULL)"
abbrev pub null_chars : List ℕ
null_chars = 40 ∷ 78 ∷ 85 ∷ 76 ∷ 76 ∷ 41 ∷ []

-- A precision above 0 is the most characters of the string that are printed.
unfoldable pub string_chars : Conv → Option (List ℕ) → List ℕ
string_chars c none = null_chars
string_chars c (some str) = elim c.precis [
  | none ↦ str
  | some p ↦ if p == 0 then str else take p str
]

unfoldable pub sprintf_string : Strbuf → Conv → Option (List ℕ) → Option Strbuf
sprintf_string s c str = append (string_chars c str) s

unfoldable pub put_string : Conv → Job → Option Job
put_string c j = elim j.args [
  | [] ↦ none
  | a ∷ vs ↦ elim a [
    | chars str ↦ sprintf_string j.out c str >>= λ s. some (record j { out = s; args = vs })
    | word n ↦ none
    | wide n ↦ none
    | place ↦ none
  ]
]

unfoldable pub put_count : Job → Option Job
put_count j = elim j.args [
  | [] ↦ none
  | a ∷ vs ↦ elim a [
    | place ↦ some (record j { args = vs; counts = j.counts ++ (j.out.len ∷ []) })
    | chars str ↦ none
    | word n ↦ none
    | wide n ↦ none
  ]
]

-- The string that strbuf_appendc makes of a NUL is empty.
unfoldable pub put_char : ℕ → Job → Option Job
put_char c j =
    (if c == 0 then append [] j.out else appendc c j.out) >>= λ s. some (record j { out = s })

unfoldable pub put_low : Job → Option Job
put_low j = word_arg j.args >>= λ a. put_char (a.0 % 256) (record j { args = a.1 })

-- The switch on the conversion specifier.
unfoldable pub convert : ℕ → Conv → Job → Option Job
convert p c j =
    if (p == 100) || (p == 105)
    then put_int c 10 j
    else if p == 111
    then put_int (unsigned c) 8 j
    else if p == 88
    then put_int (unsigned (with_alt alt_upper c)) 16 j
    else if p == 120
    then put_int (unsigned c) 16 j
    else if p == 98
    then put_int (unsigned c) 2 j
    else if p == 117
    then put_int (unsigned c) 10 j
    else if p == 99
    then put_low j
    else if p == 115
    then put_string c j
    else if p == 112
    then put_word (unsigned (with_alt (bit_or alt_hash alt_zero) c)) 16 j
    else if p == 110
    then put_count j
    else put_char p j

-- One round of the loop: what is left of the format, and the job. After a conversion without a
-- specifier the code goes on behind the end of the format; then the result is `none`.
unfoldable pub directive : List ℕ → Job → Option (List ℕ × Job)
directive fmt j = scan_conv fmt j.args >>= λ s. elim s.left [
  | [] ↦ none
  | p ∷ ps ↦ convert p s.conv (record j { args = s.args }) >>= λ j'. some (ps, j')
]

unfoldable pub step : ℕ → List ℕ → Job → Option (List ℕ × Job)
step p ps j = if p == 37 then directive ps j else (put_char p j >>= λ j'. some (ps, j'))

-- Each round takes a character at least.
unfoldable pub rounds : ℕ → List ℕ → Job → Option Job
rounds zero fmt j = none
rounds (suc f) [] j = some j
rounds (suc f) (p ∷ ps) j = step p ps j >>= λ r. rounds f r.0 r.1

unfoldable pub sprintf_core : List ℕ → Job → Option Job
sprintf_core fmt j = rounds (length fmt + 1) fmt j

-- `maxlen` is 0 where it is negative. A string is the room and the content of its memory.
unfoldable pub vsnprintf : ℕ × (ℕ → ℕ) → ℕ → List ℕ → List Arg → Option Job
vsnprintf str maxlen fmt vs = do
  let max = if ltb 0 maxlen then upto (maxlen - 1) else fixed
  s ← init (λ k. 0) (some str) max
  sprintf_core fmt (record { out = s; args = vs; counts = [] })

unfoldable pub snprintf : ℕ × (ℕ → ℕ) → ℕ → List ℕ → List Arg → Option Job
snprintf str maxlen fmt vs = vsnprintf str maxlen fmt vs

unfoldable pub sprintf : ℕ × (ℕ → ℕ) → List ℕ → List Arg → Option Job
sprintf str fmt vs = vsnprintf str 0 fmt vs

-- What goes out on the serial line.
unfoldable pub putc : ℕ → List ℕ
putc c = if c == 10 then c ∷ 13 ∷ [] else c ∷ []

unfoldable pub put_each : List ℕ → List ℕ
put_each [] = []
put_each (c ∷ cs) = putc c ++ put_each cs

unfoldable pub puts : Option (List ℕ) → List ℕ
puts none = put_each null_chars
puts (some str) = put_each str

-- The characters of a memory of `n` bytes from place `i` up to a NUL.
unfoldable pub c_string : ℕ → ℕ → (ℕ → ℕ) → List ℕ
c_string zero i b = []
c_string (suc n) i b = let rest = c_string n (i + 1) b in if b i == 0 then [] else b i ∷ rest

-- The pointer of a buffer without memory is NULL.
unfoldable pub string_of : Strbuf → Option (List ℕ)
string_of s = if s.room == 0 then none else some (c_string s.room 0 s.buf)

-- The length and the characters on the serial line.
unfoldable pub printf : List ℕ → List Arg → Option (ℕ × List ℕ)
printf fmt vs = do
  s ← init (λ k. 0) none grow
  j ← sprintf_core fmt (record { out = s; args = vs; counts = [] })
  some (j.out.len, puts (string_of j.out))

-- units_table, without the entry that ends it.
abbrev pub units_table : List (ℕ × ℕ)
units_table = (2 ^ 30, 71) ∷ (2 ^ 20, 77) ∷ (2 ^ 10, 75) ∷ []

-- The loop over the table: the number to print and its symbol.
unfoldable pub find_unit : List (ℕ × ℕ) → ℕ → Option (ℕ × ℕ)
find_unit [] num = none
find_unit ((divisor, symbol) ∷ us) num =
    let rest = find_unit us num in
    if leb divisor num && (num % divisor == 0) then some (num / divisor, symbol) else rest

-- "%d%c" or "%d", in 32 bytes that are cleared.
unfoldable pub print_bytes : ℕ → Option (List ℕ)
print_bytes num = do
  let buf : ℕ × (ℕ → ℕ) = (32, λ k. 0)
  j ← elim (find_unit units_table num) [
    | none ↦ sprintf buf (37 ∷ 100 ∷ []) (word num ∷ [])
    | some u ↦ sprintf buf (37 ∷ 100 ∷ 37 ∷ 99 ∷ []) (word (u.0) ∷ word (u.1) ∷ [])
  ]
  some (c_string 32 0 j.out.buf)
