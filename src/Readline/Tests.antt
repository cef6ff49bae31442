-- ===== src/Readline/Tests.antt =====
-- The history and the expansion of a line at concrete lines.
use cobalt_rom.Prelude.{ℕ, ◌≡◌, refl, true, none, some, List, [], ◌∷◌, ◌++◌, arith}
use cobalt_rom.Text.{stoli, dec_loop, within, isdigit, hexatoi, toupper}
use cobalt_rom.Readline.{History, no_history, saveline, histlookup_num, readline}
use cobalt_rom.Readline.Saved.{Saved, Saved-nil, saveline-Saved}
use cobalt_rom.Readline.Lookup.{recent, histlookup_num_lem}
use cobalt_rom.Readline.Expand.{readline-number}
use cobalt_rom.Readline.Raw.{Editor}
use cobalt_rom.Readline.Raw.Shown.{Shown, row}
use cobalt_rom.Readline.Raw.Read.{raw_read}
use cobalt_rom.Readline.Raw.Read.Typed.{raw_read-typed}

-- "ls" and "rm"
abbrev ls : List ℕ
ls = 108 ∷ 115 ∷ []

abbrev rm : List ℕ
rm = 114 ∷ 109 ∷ []

abbrev two : History
two = saveline rm (saveline ls no_history)

two-Saved : Saved (rm ∷ ls ∷ []) two
two-Saved =
    saveline-Saved rm (ls ∷ []) (saveline ls no_history) (saveline-Saved ls [] no_history Saved-nil)

saveline-Saved_example : Saved (ls ∷ []) (saveline ls no_history)
saveline-Saved_example = saveline-Saved ls [] no_history Saved-nil

histlookup_num_example : histlookup_num 0 two ≡ some (recent 0 (rm ∷ ls ∷ []))
histlookup_num_example = histlookup_num_lem 0 (rm ∷ ls ∷ []) two two-Saved

zero_reads : (stoli (48 ∷ [])).1 ≡ 0
unfolding stoli dec_loop within isdigit hexatoi toupper
zero_reads = refl

zero_digit : isdigit 48 ≡ true
unfolding isdigit
zero_digit = refl

readline-number_example : readline (33 ∷ 48 ∷ []) two ≡ some (ls, saveline ls two)
readline-number_example =
    readline-number 48 0 [] ls (rm ∷ ls ∷ []) two two-Saved (zero_digit, tt) (omega arith)
      zero_reads refl

-- "ls" on the terminal, with the cursor on the "s"
abbrev editing : Editor
editing = record {
  buf = some ls;
  rawpos = 1;
  overwrite = true;
  ups = 0;
  prevs = λ k. none;
  screen = row ls;
  column = 1;
}

-- Control-D, the arrow to the left, and an "x"
abbrev some_keys : List ℕ
some_keys = 4 ∷ 27 ∷ 91 ∷ 68 ∷ 120 ∷ []

raw_read-typed_example :
    (e' : Editor) × (raw_read two
        (ls ++ (13 ∷ []))
        (record editing { column = 0; screen = λ k. 32 })
      ≡ some (ls, e'))
raw_read-typed_example =
    raw_read-typed two ls (record editing { column = 0; screen = λ k. 32 }) refl (λ k. refl)
      (omega arith, omega arith, (omega arith, omega arith, tt))
