-- ===== src/Readline.antt =====
-- The command history and the expansion of a line in x86/common/readline.c.
mod Tests
pub mod Saved
pub mod Lookup
pub mod Prefix
pub mod Expand
pub mod Ends
pub mod Raw
use cobalt_rom.Prelude.{
  ℕ, zero, suc, ◌+◌, ◌-◌, ◌*◌, ◌/◌, ◌%◌, ◌^◌, ◌≤◌, ◌<◌, max, min, ◌≡◌, ◌≢◌, ◌↔◌, ◌⊎◌, refl, sym,
  ◌∙◌, ap, inl, inr, Bool, true, false, not, ◌||◌, ◌&&◌, Bool-cases, Option, none, some,
  Option-cases, ltb, leb, ◌==◌, ==_iff, ==_false_iff, if◌then◌else◌, if_intro, bit_and, bit_or,
  bit_xor, List, [], ◌∷◌, ◌++◌, length, get_or, set, take, replicate, arith, get_or_beyond,
  length-append, get_or-append_left, get_or-append_right, get_or-take, get_or-drop, drop,
  length-take, length-drop, take_all,
}
use cobalt_rom.Text.{isdigit, isalnum, isspace, strncmp, is_zero, stoli}

abbrev pub histsz : ℕ
histsz = 128

-- An entry whose line is NULL has not been used.
pub record Histent : Type 0 where
  pub h_num : ℕ
  pub h_line : Option (List ℕ)

-- The ring of entries; `histn` and `hist0` are places in it, and `sync` is the variable that
-- saveline keeps.
pub record History : Type 0 where
  pub history : ℕ → Histent
  pub histn : ℕ
  pub hist0 : ℕ
  pub histnum : ℕ
  pub sync : Bool

abbrev pub unused : Histent
unused = record { h_num = 0; h_line = none }

abbrev pub no_history : History
no_history = record { history = λ i. unused; histn = 0; hist0 = 0; histnum = 0; sync = false }

-- The links that readline_init sets.
unfoldable pub h_next : ℕ → ℕ
h_next i = if i == histsz - 1 then 0 else i + 1

unfoldable pub h_prev : ℕ → ℕ
h_prev i = if i == 0 then histsz - 1 else i - 1

unfoldable pub saveline : List ℕ → History → History
saveline line s =
    let histn = h_next s.histn in
    let hist0 = if s.sync then histn else s.hist0 in
    record {
      history = λ i.
          if i == s.histn then record { h_num = s.histnum; h_line = some line } else s.history i;
      histn = histn;
      hist0 = hist0;
      histnum = s.histnum + 1;
      sync = if histn == hist0 then true else s.sync;
    }

-- The outer `none` is a loop that takes more rounds than the ring has entries.
unfoldable pub scan_num : ℕ → ℕ → ℕ → History → Option (Option (List ℕ))
scan_num zero num h s = none
scan_num (suc f) num h s =
    let rest = scan_num f num (h_next h) s in
    if (s.history h).h_num == num
    then some ((s.history h).h_line)
    else if h_next h == s.histn
    then some none
    else rest

unfoldable pub histlookup_num : ℕ → History → Option (Option (List ℕ))
histlookup_num num s = scan_num histsz num s.hist0 s

unfoldable pub has_prefix : List ℕ → Option (List ℕ) → Bool
has_prefix str none = false
has_prefix str (some line) = is_zero (strncmp line str (length str))

unfoldable pub scan_str : ℕ → List ℕ → ℕ → History → Option (Option (List ℕ))
scan_str zero str h s = none
scan_str (suc f) str h s =
    let rest = scan_str f str (h_prev h) s in
    if has_prefix str ((s.history h).h_line)
    then some ((s.history h).h_line)
    else if h_prev h == h_prev s.histn
    then some none
    else rest

unfoldable pub histlookup_str : List ℕ → History → Option (Option (List ℕ))
histlookup_str str s = scan_str histsz str (h_prev s.histn) s

pub data ReadlineState : Type 0 where
  st_line : ReadlineState
  st_bang : ReadlineState
  st_bangnum : ReadlineState
  st_bangstr : ReadlineState
  st_slashesc : ReadlineState
  st_sqstr : ReadlineState
  st_dqstr : ReadlineState

-- The variables of readline; a string buffer that grows is its list of characters.
pub record Reader : Type 0 where
  pub state : ReadlineState
  pub pushed_state : ReadlineState
  pub buf : List ℕ
  pub bbuf : List ℕ
  pub bangflag : Bool

-- What a round leads to: another round, on the next character or (`again`) on the same; the end of
-- the line; a failure; or an access outside an array.
pub data Round : Type 0 where
  next : Reader → Round
  again : Reader → Round
  success : Reader → Round
  fail : Reader → Round
  fault : Round

abbrev pub to : ReadlineState → Reader → Reader
to st r = record r { state = st }

abbrev pub put : ℕ → Reader → Reader
put c r = record r { buf = r.buf ++ c ∷ [] }

abbrev pub push : ReadlineState → Reader → Reader
push st r = record r { pushed_state = st }

-- A line of the history, or the message that there is none.
unfoldable pub expand : Option (Option (List ℕ)) → (Reader → Round) → Reader → Round
expand none k r = fault
expand (some none) k r = fail r
expand (some (some p)) k r = k (record r { buf = r.buf ++ p })

-- `bbuf` has 128 places, the last one for the NUL.
unfoldable pub put_bbuf : ℕ → Reader → Round
put_bbuf c r =
    if ltb (length r.bbuf) 127 then next (record r { bbuf = r.bbuf ++ c ∷ [] }) else fault

-- The back slash before the end of the line appends the NUL, which changes no string, and the next
-- round reads past the end.
unfoldable pub round : History → Reader → ReadlineState → ℕ → Round
round s r st_line c =
    if c == 0
    then success r
    else if c == 33
    then next (to st_bang (push st_line r))
    else if c == 92
    then next (to st_slashesc r)
    else if c == 39
    then next (to st_sqstr (put c (push st_line r)))
    else if c == 34
    then next (to st_dqstr (put c r))
    else next (put c r)
round s r st_bang c =
    if c == 33
    then expand (if s.histnum == 0 then some none else histlookup_num (s.histnum - 1) s)
        (λ r'. next (to st_line r')) (record r { bangflag = true })
    else if isdigit c
    then again (to st_bangnum (record r { bangflag = true }))
    else if isalnum c
    then again (to st_bangstr (record r { bangflag = true }))
    else fail r
round s r st_bangnum c =
    if isdigit c
    then put_bbuf c r
    else expand (histlookup_num ((stoli r.bbuf).1) s) (λ r'. again (to r'.pushed_state r'))
        (record r { bbuf = [] })
round s r st_bangstr c =
    if not (c == 0) && not (isspace c)
    then put_bbuf c r
    else expand (histlookup_str r.bbuf s) (λ r'. again (to r'.pushed_state r'))
        (record r { bbuf = [] })
round s r st_slashesc c = if c == 0 then fault else next (to st_line (put c r))
round s r st_sqstr c =
    if c == 39
    then next (to r.pushed_state (put c r))
    else if c == 0
    then fail r
    else next (put c r)
round s r st_dqstr c =
    if c == 34
    then next (to st_line (put c r))
    else if c == 0
    then fail r
    else if c == 33
    then next (to st_bang (push st_dqstr r))
    else if c == 39
    then next (to st_sqstr (put c (push st_dqstr r)))
    else next (put c r)

-- The loop over the characters, with the NUL as the end of the list; `none` is too little fuel.
unfoldable pub rounds : ℕ → History → List ℕ → Reader → Option Round
rounds zero s cs r = none
rounds (suc f) s cs r = elim (round s r r.state (get_or cs 0 0)) [
  | next r' ↦ rounds f s (drop 1 cs) r'
  | again r' ↦ rounds f s cs r'
  | success r' ↦ some (success r')
  | fail r' ↦ some (fail r')
  | fault ↦ some fault
]

abbrev pub new_reader : Reader
new_reader = record {
  state = st_line;
  pushed_state = st_line;
  buf = [];
  bbuf = [];
  bangflag = false;
}

-- Three rounds for each character and one for the NUL.
abbrev pub fuel_for : List ℕ → ℕ
fuel_for raw = 3 * length raw + 4

-- After the loop; a line that fails is given back as far as it has come.
unfoldable pub finish : List ℕ → History → Round → Option (List ℕ × History)
finish raw s (success r) = some (r.buf, if length raw == 0 then s else saveline r.buf s)
finish raw s (fail r) = some (r.buf, s)
finish raw s (next r) = none
finish raw s (again r) = none
finish raw s fault = none

-- readline on the line that raw_read has read; `none` is an access outside an array.
unfoldable pub readline : List ℕ → History → Option (List ℕ × History)
readline raw s = elim (rounds (fuel_for raw) s raw new_reader) [
  | some w ↦ finish raw s w
  | none ↦ none
]
