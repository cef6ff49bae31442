-- ===== src/Text/Memory.antt =====
-- Copies in memory: x86/common/memfuncs.c, and the copies of strings in x86/common/string.c. A
-- pointer is an address.
pub mod Move
pub mod Strings
mod Tests
use cobalt_rom.Prelude.{
  ℕ, zero, suc, ◌+◌, ◌-◌, ◌*◌, ◌/◌, ◌%◌, ◌^◌, ◌≤◌, ◌<◌, max, min, ◌≡◌, ◌≢◌, ◌↔◌, ◌⊎◌, refl, sym,
  ◌∙◌, ap, inl, inr, Bool, true, false, not, ◌||◌, ◌&&◌, Bool-cases, Option, none, some,
  Option-cases, ltb, leb, ◌==◌, ==_iff, ==_false_iff, if◌then◌else◌, if_intro, bit_and, bit_or,
  bit_xor, List, [], ◌∷◌, ◌++◌, length, get_or, set, take, replicate, arith, get_or_beyond,
  length-append, get_or-append_left, get_or-append_right, get_or-take, get_or-drop, drop,
  length-take, length-drop, take_all,
}

abbrev pub put : ℕ → ℕ → (ℕ → ℕ) → ℕ → ℕ
put a v mem j = if j == a then v else mem j

-- Upwards, one byte after the other, as `rep movsb` does.
unfoldable pub memcpy : ℕ → ℕ → ℕ → (ℕ → ℕ) → ℕ → ℕ
memcpy dest src zero mem = mem
memcpy dest src (suc n) mem = memcpy (dest + 1) (src + 1) n (put dest (mem src) mem)

-- The other loop of memmove, with the bytes that are left.
unfoldable pub copy_down : ℕ → ℕ → ℕ → (ℕ → ℕ) → ℕ → ℕ
copy_down dest src zero mem = mem
copy_down dest src (suc n) mem = copy_down dest src n (put (dest + n) (mem (src + n)) mem)

unfoldable pub memmove : ℕ → ℕ → ℕ → (ℕ → ℕ) → ℕ → ℕ
memmove dest src n mem = if ltb dest src then memcpy dest src n mem else copy_down dest src n mem

unfoldable pub memset : ℕ → ℕ → ℕ → (ℕ → ℕ) → ℕ → ℕ
memset a c zero mem = mem
memset a c (suc n) mem = memset (a + 1) c n (put a (c % 256) mem)

-- The two bytes whose difference is the result.
unfoldable pub memcmp : ℕ → ℕ → ℕ → (ℕ → ℕ) → ℕ × ℕ
memcmp a b zero mem = (0, 0)
memcmp a b (suc n) mem =
    let rest = memcmp (a + 1) (b + 1) n mem in if mem a == mem b then rest else (mem a, mem b)

-- A loop to the NUL of a string; `none` is a string that is longer than the fuel.
unfoldable pub find_end : ℕ → ℕ → (ℕ → ℕ) → Option ℕ
find_end zero a mem = none
find_end (suc f) a mem = let rest = find_end f (a + 1) mem in if mem a == 0 then some a else rest

unfoldable pub strlen : ℕ → ℕ → (ℕ → ℕ) → Option ℕ
strlen f a mem = elim (find_end f a mem) [ some e ↦ some (e - a) | none ↦ none ]

-- The loop of strcpy and strcat. The result is the pointer that these return, and the memory.
unfoldable pub put_string : ℕ → ℕ → ℕ → (ℕ → ℕ) → Option (ℕ × (ℕ → ℕ))
put_string zero a b mem = none
put_string (suc f) a b mem =
    let rest = put_string f (a + 1) (b + 1) (put a (mem b) mem) in
    if mem b == 0 then some (a, put a 0 mem) else rest

-- The loop of strncpy and strncat.
unfoldable pub put_part : ℕ → ℕ → ℕ → (ℕ → ℕ) → ℕ × (ℕ → ℕ)
put_part zero a b mem = (a, put a 0 mem)
put_part (suc n) a b mem =
    let rest = put_part n (a + 1) (b + 1) (put a (mem b) mem) in
    if mem b == 0 then (a, put a 0 mem) else rest

unfoldable pub strcpy : ℕ → ℕ → ℕ → (ℕ → ℕ) → Option (ℕ × (ℕ → ℕ))
strcpy f str1 str2 mem = put_string f str1 str2 mem

unfoldable pub strncpy : ℕ → ℕ → ℕ → (ℕ → ℕ) → ℕ × (ℕ → ℕ)
strncpy str1 str2 len mem = put_part len str1 str2 mem

unfoldable pub strcat : ℕ → ℕ → ℕ → (ℕ → ℕ) → Option (ℕ × (ℕ → ℕ))
strcat f str1 str2 mem = elim (find_end f str1 mem) [
  | some e ↦ put_string f e str2 mem
  | none ↦ none
]

unfoldable pub strncat : ℕ → ℕ → ℕ → ℕ → (ℕ → ℕ) → Option (ℕ × (ℕ → ℕ))
strncat f str1 str2 len mem = elim (find_end f str1 mem) [
  | some e ↦ some (put_part len e str2 mem)
  | none ↦ none
]

-- `block` is what malloc gives for a number of bytes; `none` is NULL.
unfoldable pub strdup : (ℕ → Option ℕ) → ℕ → ℕ → (ℕ → ℕ) → Option (Option ℕ × (ℕ → ℕ))
strdup block f s mem = elim (strlen f s mem) [
  | none ↦ none
  | some n ↦ elim (block (n + 1)) [
    | none ↦ some (none, mem)
    | some new ↦ elim (strcpy f new s mem) [ none ↦ none | some r ↦ some (some new, r.1) ]
  ]
]
