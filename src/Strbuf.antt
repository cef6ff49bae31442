-- ===== src/Strbuf.antt =====
-- The string buffers of x86/common/strbuf.c, with the structure of x86/include/common/strbuf.h.
mod Tests
pub mod Holds
pub mod Append
pub mod Insert
pub mod Delete
use cobalt_rom.Prelude.{
  ℕ, zero, suc, ◌+◌, ◌-◌, ◌*◌, ◌/◌, ◌%◌, ◌^◌, ◌≤◌, ◌<◌, max, min, ◌≡◌, ◌≢◌, ◌↔◌, ◌⊎◌, refl, sym,
  ◌∙◌, ap, inl, inr, Bool, true, false, not, ◌||◌, ◌&&◌, Bool-cases, Option, none, some,
  Option-cases, ltb, leb, ◌==◌, ==_iff, ==_false_iff, if◌then◌else◌, if_intro, bit_and, bit_or,
  bit_xor, List, [], ◌∷◌, ◌++◌, length, get_or, set, take, replicate, arith, length-append,
}

infixl 10 ◌>>=◌
abbrev ◌>>=◌ : {A B : Type 0} → Option A → (A → Option B) → Option B
none >>= f = none
some a >>= f = f a

-- The field `max`: STRBUF_GROW, STRBUF_FIXED, or the most characters that the buffer takes.
pub data Max : Type 0 where
  grow : Max
  fixed : Max
  upto : ℕ → Max

-- The memory of the buffer has `room` bytes.
pub record Strbuf : Type 0 where
  pub len : ℕ
  pub max : Max
  pub room : ℕ
  pub buf : ℕ → ℕ

-- A store in the memory of the buffer; `none` is one past its end.
unfoldable pub store : ℕ → ℕ → Strbuf → Option Strbuf
store i v s =
    if ltb i s.room then some (record s { buf = λ j. if j == i then v else s.buf j }) else none

-- memmove within that memory; `none` reaches past its end.
unfoldable pub memmove : ℕ → ℕ → ℕ → Strbuf → Option Strbuf
memmove dest src n s =
    if leb (dest + n) s.room && leb (src + n) s.room
    then some (record s {
      buf = λ j. if leb dest j && ltb j (dest + n) then s.buf (src + (j - dest)) else s.buf j;
    })
    else none

-- memmove from a string outside that memory.
unfoldable pub copy_in : ℕ → List ℕ → Strbuf → Option Strbuf
copy_in dest str s =
    if leb (dest + length str) s.room
    then some (record s {
      buf =
          λ j. if leb dest j && ltb j (dest + length str) then get_or str (j - dest) 0 else s.buf j;
    })
    else none

abbrev pub new_room : Max → ℕ → ℕ → ℕ
new_room grow n room = n
new_room fixed n room = room
new_room (upto m) n room = room

-- The call of realloc when the buffer grows, which succeeds.
unfoldable pub realloc : ℕ → Strbuf → Strbuf
realloc n s = record s { room = new_room s.max n s.room }

-- The test `(buf->max < 0) || (buf->len < buf->max)`.
unfoldable pub takes_more : Max → ℕ → Bool
takes_more grow len = true
takes_more fixed len = true
takes_more (upto m) len = ltb len m

-- `none` for NULL; else the room and the content of the string. malloc gives the content `fresh`,
-- and a buffer without memory has no room.
unfoldable pub init : (ℕ → ℕ) → Option (ℕ × (ℕ → ℕ)) → Max → Option Strbuf
init fresh (some str) max = store 0 0 (record { len = 0; max = max; room = str.0; buf = str.1 })
init fresh none (upto m) = store 0 0 (record { len = 0; max = upto m; room = m + 1; buf = fresh })
init fresh none grow = some (record { len = 0; max = grow; room = 0; buf = fresh })
init fresh none fixed = some (record { len = 0; max = fixed; room = 0; buf = fresh })

unfoldable pub append_chars : List ℕ → Strbuf → Option Strbuf
append_chars [] s = store s.len 0 s
append_chars (q ∷ qs) s = elim (takes_more s.max s.len) [
  | true ↦ do s' ← store s.len q s; append_chars qs (record s' { len = s'.len + 1 })
  | false ↦ store s.len 0 s
]

-- The number of characters that it returns is how much the length grows by.
unfoldable pub append : List ℕ → Strbuf → Option Strbuf
append str s = append_chars str (realloc (s.len + length str + 1) s)

unfoldable pub appendc : ℕ → Strbuf → Option Strbuf
appendc c s = append (c ∷ []) s

-- The test `STRBUF_HAS_MAX(buf) && (buf->len + strlen(str)) > buf->max`.
unfoldable pub is_over : Max → ℕ → Bool
is_over grow total = false
is_over fixed total = false
is_over (upto m) total = ltb m total

-- The first allocation of a buffer that grows puts a NUL at its start.
unfoldable pub first_nul : Strbuf → Strbuf → Strbuf
first_nul old s =
    if old.room == 0
    then elim s.max [
      | grow ↦ record s { buf = λ j. if j == 0 then 0 else s.buf j }
      | fixed ↦ s
      | upto m ↦ s
    ]
    else s

-- A negative index is as one past the length.
unfoldable pub insert : ℕ → List ℕ → Strbuf → Option Strbuf
insert idx str s =
    let grown = first_nul s (realloc (s.len + 1 + length str) s) in
    let shifted =
      if is_over s.max (s.len + length str)
      then memmove (idx + length str) idx (s.len - idx - length str) grown
      else memmove (idx + length str) idx (s.len - idx + 1)
          (record grown { len = s.len + length str }) in
    if ltb s.len idx then some s else shifted >>= copy_in idx str

unfoldable pub insertc : ℕ → ℕ → Strbuf → Option Strbuf
insertc idx c s = insert idx (c ∷ []) s

-- The number of bytes to move is negative, and far too great for memmove, when `nchars` is past the
-- end.
unfoldable pub delete : ℕ → ℕ → Strbuf → Option Strbuf
delete idx nchars s =
    let moved =
      if ltb (s.len - idx + 1) nchars
      then none
      else memmove idx (idx + nchars) (s.len - idx + 1 - nchars) s in
    if leb s.len idx
    then some s
    else do s' ← moved; some (record (realloc (s.len + 1 - nchars) s') { len = s.len - nchars })

unfoldable pub deletec : ℕ → Strbuf → Option Strbuf
deletec idx s = delete idx 1 s
