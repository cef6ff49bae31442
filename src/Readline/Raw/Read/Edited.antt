-- ===== src/Readline/Raw/Read/Edited.antt =====
-- The keys of raw_read keep the terminal and the line together.
use cobalt_rom.Prelude.{ℕ, ◌≡◌, ◌≢◌, List, [], ◌∷◌}
use cobalt_rom.Readline.Raw.{Editor}
use cobalt_rom.Readline.Raw.Shown.{Shown}
use cobalt_rom.Readline.Raw.Read.{
  Awaited, plain, escape, bracket, pad, zed, Outcome, more, done, stuck, awaits,
}

-- The terminal shows the line, with its cursor at the place of the line's cursor.
abbrev pub IsEdited : Editor → Type 0
IsEdited e = (xs : List ℕ) × (p : ℕ) × Shown e xs p

-- The loop goes on, with what it awaits next and an edited line, or the line is done.
abbrev pub GoesOn : Awaited → Outcome → Type 0
GoesOn a (more b e) = (b ≡ a) × IsEdited e
GoesOn a (done e) = Unit
GoesOn a stuck = ⊥

-- The keys but control-P, control-N, the two arrows up and down, and control-L.
abbrev pub IsEditing : Awaited → ℕ → Type 0
IsEditing plain c = (c ≢ 16) × (c ≢ 14) × (c ≢ 12)
IsEditing escape c = Unit
IsEditing bracket c = (c ≢ 65) × (c ≢ 66)
IsEditing (pad k) c = Unit
IsEditing zed c = Unit

abbrev pub AreEditing : Awaited → List ℕ → Type 0
AreEditing a [] = Unit
AreEditing a (c ∷ cs) = IsEditing a c × AreEditing (awaits a c) cs

abbrev pub IsKept : Outcome → Type 0
IsKept (more b e) = IsEdited e
IsKept (done e) = Unit
IsKept stuck = ⊥
