-- ===== src/Rtc/Date.antt =====
-- rtc_get_datestr of x86/common/rtc.c, with its buffer as memory. A place outside the table of the
-- months is `none`; the characters of the text stand for themselves.
use cobalt_rom.Prelude.{
  ℕ, zero, suc, ◌+◌, ◌-◌, Option, none, some, ltb, ◌==◌, if◌then◌else◌, List, [], ◌∷◌, get_or,
}
use cobalt_rom.Printf.Scan.{Arg, word, chars, sprintf, c_string}
use cobalt_rom.Rtc.{read_bin}

infixl 10 ◌>>=◌
abbrev ◌>>=◌ : {A B : Type 0} → Option A → (A → Option B) → Option B
none >>= f = none
some a >>= f = f a

-- "Jan" to "Dec", and "Bad".
abbrev pub months : List (List ℕ)
months =
    (74 ∷ 97 ∷ 110 ∷ [])
    ∷ (70 ∷ 101 ∷ 98 ∷ [])
    ∷ (77 ∷ 97 ∷ 114 ∷ [])
    ∷ (65 ∷ 112 ∷ 114 ∷ [])
    ∷ (77 ∷ 97 ∷ 121 ∷ [])
    ∷ (74 ∷ 117 ∷ 110 ∷ [])
    ∷ (74 ∷ 117 ∷ 108 ∷ [])
    ∷ (65 ∷ 117 ∷ 103 ∷ [])
    ∷ (83 ∷ 101 ∷ 112 ∷ [])
    ∷ (79 ∷ 99 ∷ 116 ∷ [])
    ∷ (78 ∷ 111 ∷ 118 ∷ [])
    ∷ (68 ∷ 101 ∷ 99 ∷ [])
    ∷ (66 ∷ 97 ∷ 100 ∷ [])
    ∷ []

-- `months[tmp - 1]`; the unsigned 0 - 1 is far behind the table.
unfoldable pub month_name : ℕ → Option (List ℕ)
month_name zero = none
month_name (suc k) = if ltb k 13 then some (get_or months k []) else none

-- sprintf to the place `p` of the buffer.
unfoldable pub print_at : ℕ → List ℕ → List Arg → (ℕ → ℕ) → Option (ℕ → ℕ)
print_at p fmt vs buf = elim (sprintf (128 - p, λ i. buf (p + i)) fmt vs) [
  | none ↦ none
  | some j ↦ some (λ i. if ltb i p then buf i else j.out.buf (i - p))
]

-- "%s%d" and the text after it.
unfoldable pub two_at : ℕ → ℕ → List ℕ → (ℕ → ℕ) → Option (ℕ → ℕ)
two_at p tmp text buf =
    print_at p (37 ∷ 115 ∷ 37 ∷ 100 ∷ text)
      (chars (some (if ltb tmp 10 then 48 ∷ [] else [])) ∷ word tmp ∷ []) buf

-- The text in the buffer, for a month, a day, an hour, a minute, a second and a year as the
-- registers give them.
unfoldable pub date_text : ℕ → ℕ → ℕ → ℕ → ℕ → ℕ → (ℕ → ℕ) → Option (List ℕ)
date_text mo d h mi sc y buf = do
  name ← month_name (if ltb 12 mo then 13 else mo)
  b1 ← print_at 0 (37 ∷ 115 ∷ 32 ∷ []) (chars (some name) ∷ []) buf
  b2 ← two_at 4 d (32 ∷ []) b1
  b3 ← two_at 7 h (58 ∷ []) b2
  b4 ← two_at 10 mi (58 ∷ []) b3
  b5 ← two_at 13 sc (32 ∷ 85 ∷ 84 ∷ 67 ∷ 32 ∷ []) b4
  b6 ← print_at 20 (37 ∷ 100 ∷ []) (word (y + (if ltb y 70 then 2000 else 1900)) ∷ []) b5
  some (c_string 128 0 (λ i. if i == 24 then 0 else b6 i))

module _ {S : Type 0} (outb : ℕ → ℕ → S → S) (inb : ℕ → S → ℕ) where
  -- `buf` is what the buffer holds from the call before.
  unfoldable pub rtc_get_datestr : (ℕ → ℕ) → S → Option (List ℕ × S)
  rtc_get_datestr buf s =
      let (mo, s1) = read_bin outb inb 0x8 0xff s in
      let (d, s2) = read_bin outb inb 0x7 0xff s1 in
      let (h, s3) = read_bin outb inb 0x4 0xff s2 in
      let (mi, s4) = read_bin outb inb 0x2 0xff s3 in
      let (sc, s5) = read_bin outb inb 0x0 0xff s4 in
      let (y, s6) = read_bin outb inb 0x9 0xff s5 in
      elim (date_text mo d h mi sc y buf) [ some out ↦ some (out, s6) | none ↦ none ]
