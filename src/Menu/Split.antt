-- ===== src/Menu/Split.antt =====
-- split_buffer of x86/common/menu.c: it puts NULs into the line and the places of the arguments
-- into argv.
pub mod Words
use cobalt_rom.Prelude.{
  ℕ, zero, suc, ◌+◌, ◌-◌, ◌*◌, ◌/◌, ◌%◌, ◌^◌, ◌≤◌, ◌<◌, max, min, ◌≡◌, ◌≢◌, ◌↔◌, ◌⊎◌, refl, sym,
  ◌∙◌, ap, inl, inr, Bool, true, false, not, ◌||◌, ◌&&◌, Bool-cases, Option, none, some,
  Option-cases, ltb, leb, ◌==◌, ==_iff, ==_false_iff, if◌then◌else◌, if_intro, bit_and, bit_or,
  bit_xor, List, [], ◌∷◌, ◌++◌, length, get_or, set, take, replicate, arith, get_or_beyond,
  length-append, get_or-append_left, get_or-append_right, get_or-take, get_or-drop, drop,
  length-take, length-drop, take_all,
}

unfoldable pub isblank : ℕ → Bool
isblank c = (c == 32) || (c == 9)

unfoldable pub isquote : ℕ → Bool
isquote c = (c == 34) || (c == 39)

-- buf_state_t
pub data BufState : Type 0 where
  st_blank : BufState
  st_qstr : BufState
  st_token : BufState

-- The memory of the line, and the variables of the loop.
pub record Splitter : Type 0 where
  pub mem : ℕ → ℕ
  pub state : BufState
  pub argv : List ℕ
  pub qchar : ℕ

-- MENU_MAX_ARGS
abbrev pub max_args : ℕ
max_args = 16

unfoldable pub store_nul : ℕ → Splitter → Splitter
store_nul i s = record s { mem = λ k. if k == i then 0 else s.mem k }

-- `argv[argc++] = a`; `none` is a place behind the end of argv.
unfoldable pub new_arg : ℕ → Splitter → Option Splitter
new_arg a s =
    if ltb (length s.argv) max_args then some (record s { argv = s.argv ++ a ∷ [] }) else none

unfoldable pub at_blank : ℕ → ℕ → Splitter → Option Splitter
at_blank i c s =
    if isblank c
    then some s
    else if isquote c
    then new_arg (i + 1) (record s { qchar = c; state = st_qstr })
    else new_arg i (record s { state = st_token })

unfoldable pub at_token : ℕ → ℕ → Splitter → Option Splitter
at_token i c s =
    if isblank c
    then some (store_nul i (record s { state = st_blank }))
    else if isquote c
    then some (record s { qchar = c; state = st_qstr })
    else some s

unfoldable pub at_qstr : ℕ → ℕ → Splitter → Option Splitter
at_qstr i c s =
    if c == s.qchar
    then some (
        store_nul i
          (record s { qchar = 0; state = if isblank (s.mem (i + 1)) then st_blank else st_token }))
    else some s

unfoldable pub at_char : BufState → ℕ → ℕ → Splitter → Option Splitter
at_char st_blank i c s = at_blank i c s
at_char st_qstr i c s = at_qstr i c s
at_char st_token i c s = at_token i c s

infixl 10 ◌>>=◌
abbrev ◌>>=◌ : {A B : Type 0} → Option A → (A → Option B) → Option B
none >>= f = none
some a >>= f = f a

-- `while (*buffer)` from place `i` on; the fuel is one more than the characters that are left.
unfoldable pub rounds : ℕ → ℕ → Splitter → Option Splitter
rounds zero i s = none
rounds (suc n) i s = elim (s.mem i == 0) [
  | true ↦ some s
  | false ↦ at_char s.state i (s.mem i) s >>= rounds n (i + 1)
]

-- A line as memory.
unfoldable pub split_buffer : List ℕ → Option Splitter
split_buffer xs =
    rounds (length xs + 1) 0
      (record { mem = λ k. get_or xs k 0; state = st_blank; argv = []; qchar = 0 })
