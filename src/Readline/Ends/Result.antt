-- ===== src/Readline/Ends/Result.antt =====
-- readline has a result.
use cobalt_rom.Prelude.{
  ℕ, ◌+◌, ◌-◌, ◌≤◌, ◌≡◌, false, ◌&&◌, Option, none, some, ◌==◌, List, [], ◌∷◌, length,
}
use cobalt_rom.Readline.{
  ReadlineState, st_line, st_bang, st_bangnum, st_bangstr, st_slashesc, st_sqstr, st_dqstr, Reader,
  Round, next, again, success, fail, fault,
}
use cobalt_rom.Readline.Saved.{Saved}

-- Characters without a NUL, of which the last one is no back slash.
abbrev pub IsLine : List ℕ → Type 0
IsLine [] = Unit {0}
IsLine (c ∷ cs) = ((c == 0) ≡ false) × ((length cs == 0 && (c == 92)) ≡ false) × IsLine cs

abbrev escaped : ReadlineState → ℕ
escaped st_bang = 0
escaped st_bangnum = 0
escaped st_bangstr = 0
escaped st_line = 0
escaped st_slashesc = 1
escaped st_sqstr = 0
escaped st_dqstr = 0

-- With `n` characters left: room for them in bbuf, and one that a back slash escapes.
abbrev Kept : ℕ → Reader → Type 0
Kept n r = (length r.bbuf + n ≤ 127) × (escaped r.state ≤ n) × (escaped r.pushed_state ≡ 0)

-- A round that stays inside the arrays, on a character of which `n` are left.
abbrev Good : ℕ → Round → Type 0
Good n (next r) = Kept (n - 1) r
Good n (again r) = Kept n r
Good n (success r) = Unit {0}
Good n (fail r) = Unit {0}
Good n fault = 1 ≤ 0

-- The loop stops at the end of the line or with an error message.
abbrev IsEnd : Round → Type 0
IsEnd (next r) = 1 ≤ 0
IsEnd (again r) = 1 ≤ 0
IsEnd (success r) = Unit {0}
IsEnd (fail r) = Unit {0}
IsEnd fault = 1 ≤ 0

abbrev Stops : Option Round → Type 0
Stops none = Unit {0}
Stops (some w) = IsEnd w
