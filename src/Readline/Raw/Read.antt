-- ===== src/Readline/Raw/Read.antt =====
-- raw_read of x86/common/readline.c: the keys, one after the other.
pub mod Edited
pub mod Typed
use cobalt_rom.Prelude.{
  ℕ, zero, suc, ◌+◌, ◌-◌, ◌*◌, ◌/◌, ◌%◌, ◌^◌, ◌≤◌, ◌<◌, max, min, ◌≡◌, ◌≢◌, ◌↔◌, ◌⊎◌, refl, sym,
  ◌∙◌, ap, inl, inr, Bool, true, false, not, ◌||◌, ◌&&◌, Bool-cases, Option, none, some,
  Option-cases, ltb, leb, ◌==◌, ==_iff, ==_false_iff, if◌then◌else◌, if_intro, bit_and, bit_or,
  bit_xor, List, [], ◌∷◌, ◌++◌, length, get_or, set, take, replicate, arith, get_or_beyond,
  length-append, get_or-append_left, get_or-append_right, get_or-take, get_or-drop, drop,
  length-take, length-drop, take_all,
}
use cobalt_rom.Readline.{History}
use cobalt_rom.Readline.Raw.{
  Editor, text, raw_putc, raw_cursor, cursor_end, raw_backspace, clear_to_bol, clear_to_eol,
  arrow_left, arrow_right, delete_under, type_char, arrow_up, arrow_down,
}

-- What raw_read has got of an escape sequence: nothing, ESC, ESC [, the number of a key of the
-- control pad, or ESC Z.
pub data Awaited : Type 0 where
  plain : Awaited
  escape : Awaited
  bracket : Awaited
  pad : ℕ → Awaited
  zed : Awaited

-- `stuck` is an access outside `prevs`.
pub data Outcome : Type 0 where
  more : Awaited → Editor → Outcome
  done : Editor → Outcome
  stuck : Outcome

unfoldable pub awaits : Awaited → ℕ → Awaited
awaits plain c = if c == 27 then escape else plain
awaits escape c = if c == 91 then bracket else if c == 90 then zed else plain
awaits bracket c = if (c == 49) || ((c == 50) || (c == 52)) then pad c else plain
awaits (pad k) c = plain
awaits zed c = plain

abbrev pub moved_up : Option Editor → Outcome
moved_up none = stuck
moved_up (some e) = more plain e

-- A key outside an escape sequence. Control-L goes to the terminal alone, which clears its screen.
unfoldable pub plain_key : History → ℕ → Editor → Outcome
plain_key h c e =
    if (c == 10) || (c == 13)
    then done e
    else if (c == 8) || (c == 127)
    then more plain (raw_backspace e)
    else if c == 9
    then more plain e
    else if c == 27
    then more escape e
    else if c == 1
    then more plain (raw_cursor 0 e)
    else if c == 5
    then more plain (cursor_end e)
    else if (c == 21) || (c == 23)
    then more plain (clear_to_bol e)
    else if c == 11
    then more plain (clear_to_eol e)
    else if c == 4
    then more plain (delete_under e)
    else if c == 16
    then moved_up (arrow_up h e)
    else if c == 14
    then more plain (arrow_down e)
    else if c == 2
    then more plain (arrow_left e)
    else if c == 6
    then more plain (arrow_right e)
    else if c == 3
    then done (record e { buf = none })
    else if c == 12
    then more plain (record e { column = 0; screen = λ k. 32 })
    else more plain (type_char c e)

unfoldable pub bracket_key : History → ℕ → Editor → Outcome
bracket_key h c e =
    if c == 65
    then moved_up (arrow_up h e)
    else if c == 66
    then more plain (arrow_down e)
    else if c == 67
    then more plain (arrow_right e)
    else if c == 68
    then more plain (arrow_left e)
    else more (awaits bracket c) e

-- The control pad: 2 is INSERT, 1 is HOME, and 4 is END.
unfoldable pub pad_key : ℕ → Editor → Editor
pad_key k e =
    if k == 50
    then record e { overwrite = not e.overwrite }
    else if k == 49
    then raw_cursor 0 e
    else cursor_end e

unfoldable pub key : History → Awaited → ℕ → Editor → Outcome
key h plain c e = plain_key h c e
key h escape c e = more (awaits escape c) e
key h bracket c e = bracket_key h c e
key h (pad k) c e = more plain (if c == 126 then pad_key k e else e)
key h zed c e = if c == 90 then done (raw_putc 10 e) else more plain e

-- The loop, which waits at the end of the keys.
unfoldable pub keys : History → List ℕ → Awaited → Editor → Outcome
keys h [] a e = more a e
keys h (c ∷ cs) a e = elim (key h a c e) [
  | more a' e' ↦ keys h cs a' e'
  | done e' ↦ done e'
  | stuck ↦ stuck
]

abbrev pub new_line : Editor → Editor
new_line e = record e { buf = none; rawpos = 0; prevs = λ k. none; ups = 0 }

-- The line, or `none` where the keys end first or the code leaves `prevs`.
unfoldable pub raw_read : History → List ℕ → Editor → Option (List ℕ × Editor)
raw_read h cs e = elim (keys h cs plain (new_line e)) [
  | more a e' ↦ none
  | done e' ↦ some (text e'.buf, raw_putc 10 e')
  | stuck ↦ none
]
