-- ===== src/Readline/Raw.antt =====
-- The editing of a raw line in x86/common/readline.c: raw_putc, raw_cursor, raw_backspace, raw_arrow
-- and the keys of raw_read. The string buffer is the list of its characters.
pub mod Moves
pub mod Shown
pub mod Keys
pub mod Read
use cobalt_rom.Prelude.{
  ℕ, zero, suc, ◌+◌, ◌-◌, ◌*◌, ◌/◌, ◌%◌, ◌^◌, ◌≤◌, ◌<◌, max, min, ◌≡◌, ◌≢◌, ◌↔◌, ◌⊎◌, refl, sym,
  ◌∙◌, ap, inl, inr, Bool, true, false, not, ◌||◌, ◌&&◌, Bool-cases, Option, none, some,
  Option-cases, ltb, leb, ◌==◌, ==_iff, ==_false_iff, if◌then◌else◌, if_intro, bit_and, bit_or,
  bit_xor, List, [], ◌∷◌, ◌++◌, length, get_or, set, take, replicate, arith, get_or_beyond,
  length-append, get_or-append_left, get_or-append_right, get_or-take, get_or-drop, drop,
  length-take, length-drop, take_all,
}
use cobalt_rom.Strbuf.Insert.{inserted}
use cobalt_rom.Strbuf.Delete.{deleted}
use cobalt_rom.Readline.{History, histsz, histlookup_num}

-- The variables of the editor, and the row of the terminal with its cursor. `none` is NULL.
pub record Editor : Type 0 where
  pub buf : Option (List ℕ)
  pub rawpos : ℕ
  pub overwrite : Bool
  pub ups : ℕ
  pub prevs : ℕ → Option (List ℕ)
  pub screen : ℕ → ℕ
  pub column : ℕ

abbrev pub text : Option (List ℕ) → List ℕ
text none = []
text (some xs) = xs

abbrev pub line : Editor → List ℕ
line e = text e.buf

-- What the terminal makes of a character: a back space moves the cursor, any other is shown.
unfoldable pub raw_putc : ℕ → Editor → Editor
raw_putc c e =
    if c == 8
    then record e { rawpos = e.rawpos - 1; column = e.column - 1 }
    else if (c == 10) || (c == 13)
    then record e { rawpos = 0; column = 0; screen = λ k. 32 }
    else record e {
      rawpos = e.rawpos + 1;
      column = e.column + 1;
      screen = λ k. if k == e.column then c else e.screen k;
    }

-- The two loops of raw_cursor, with the places that are left to go.
unfoldable pub forward : ℕ → Editor → Editor
forward zero e = e
forward (suc n) e = forward n (raw_putc (get_or (line e) e.rawpos 0) e)

unfoldable pub backward : ℕ → Editor → Editor
backward zero e = e
backward (suc n) e = backward n (raw_putc 8 e)

-- The new position is in the line; else raw_cursor returns -1.
unfoldable pub raw_cursor : ℕ → Editor → Editor
raw_cursor newpos e =
    if ltb (length (line e)) newpos
    then e
    else backward (e.rawpos - newpos) (forward (newpos - e.rawpos) e)

abbrev pub cursor_end : Editor → Editor
cursor_end e = raw_cursor (length (line e)) e

abbrev pub with_line : List ℕ → Editor → Editor
with_line xs e = record e { buf = some xs }

unfoldable pub raw_backspace : Editor → Editor
raw_backspace e =
    let left = raw_cursor (e.rawpos - 1) e in
    let cut = with_line (deleted left.rawpos 1 (line left)) left in
    if e.rawpos == 0
    then e
    else if cut.rawpos == length (line cut)
    then raw_putc 8 (raw_putc 32 cut)
    else raw_cursor (e.rawpos - 1) (raw_putc 8 (raw_putc 32 (cursor_end cut)))

-- `while (rawpos)` and `while (rawpos > i)`, each with the rounds that are left.
unfoldable pub backspaces : ℕ → Editor → Editor
backspaces zero e = e
backspaces (suc n) e = backspaces n (raw_backspace e)

unfoldable pub clear_to_bol : Editor → Editor
clear_to_bol e = backspaces e.rawpos e

unfoldable pub clear_to_eol : Editor → Editor
clear_to_eol e = backspaces (length (line e) - e.rawpos) (cursor_end e)

unfoldable pub arrow_left : Editor → Editor
arrow_left e = if e.rawpos == 0 then e else raw_cursor (e.rawpos - 1) e

unfoldable pub arrow_right : Editor → Editor
arrow_right e = raw_cursor (e.rawpos + 1) e

unfoldable pub delete_under : Editor → Editor
delete_under e = if ltb e.rawpos (length (line e)) then raw_backspace (arrow_right e) else e

-- The default of the switch in raw_read.
unfoldable pub type_char : ℕ → Editor → Editor
type_char c e =
    let has_buf : Bool = elim e.buf [ none ↦ false | some xs ↦ true ] in
    let room = if e.overwrite && has_buf then with_line (deleted e.rawpos 1 (line e)) e else e in
    let put = with_line (inserted e.rawpos (c ∷ []) (line room)) room in
    raw_cursor (e.rawpos + 1) (cursor_end put)

-- The loop that overwrites the line with spaces and one more after it.
unfoldable pub blanks : ℕ → Editor → Editor
blanks zero e = e
blanks (suc n) e = blanks n (raw_putc 32 e)

unfoldable pub clear_row : Editor → Editor
clear_row e = let home = raw_cursor 0 e in raw_cursor 0 (blanks (length (line e) + 1) home)

unfoldable pub save_prev : Editor → Editor
save_prev e = record e { prevs = λ k. if k == e.ups then e.buf else e.prevs k }

unfoldable pub reveal : ℕ → Option (List ℕ) → Editor → Editor
reveal ups p e = cursor_end (record (clear_row e) { buf = p; ups = ups })

-- `none` is an access outside `prevs`.
unfoldable pub arrow_up : History → Editor → Option Editor
arrow_up h e =
    let found =
      if ltb e.ups h.histnum then histlookup_num (h.histnum - (e.ups + 1)) h else some none in
    let saved = save_prev e in
    elim found [
      | none ↦ none
      | some none ↦ some e
      | some (some p) ↦
          if ltb (e.ups + 1) histsz
          then some (
              reveal (e.ups + 1)
                (elim (saved.prevs (e.ups + 1)) [ some q ↦ some q | none ↦ some p ]) saved)
          else none
    ]

unfoldable pub arrow_down : Editor → Editor
arrow_down e =
    let saved = save_prev e in
    if e.ups == 0 then e else reveal (e.ups - 1) (saved.prevs (e.ups - 1)) saved
