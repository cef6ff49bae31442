-- ===== src/Readline/Expand.antt =====
-- What readline makes of plain lines, of `!!` and of `!` with a number.
use cobalt_rom.Prelude.{
  ℕ, zero, suc, ◌+◌, ◌-◌, ◌*◌, ◌≤◌, ◌<◌, ◌≡◌, refl, sym, ◌∙◌, ap, Bool, true, false, ◌&&◌, some,
  ltb, leb, ◌==◌, if◌then◌else◌, List, [], ◌∷◌, ◌++◌, length, get_or, arith, length-append, drop,
}
use mathlib.Core.List.{append-nil, append_assoc}
use cobalt_rom.Text.{isdigit, stoli}
use cobalt_rom.Readline.{
  History, st_line, st_bang, st_bangnum, Reader, next, again, success, to, expand, put_bbuf, round,
  rounds, new_reader, fuel_for, finish, readline, saveline, histlookup_num,
}
use cobalt_rom.Readline.Saved.{Saved}
use cobalt_rom.Readline.Lookup.{recent, histlookup_num_lem}

-- No character has a meaning of its own to readline.
abbrev pub IsPlain : List ℕ → Type 0
IsPlain [] = Unit {0}
IsPlain (c ∷ cs) =
    ((c == 0) ≡ false)
    × ((c == 33) ≡ false)
    × ((c == 92) ≡ false)
    × ((c == 39) ≡ false)
    × ((c == 34) ≡ false)
    × IsPlain cs

-- A reader outside quotes.
abbrev reader : List ℕ → Bool → Reader
reader xs flag = record {
  state = st_line;
  pushed_state = st_line;
  buf = xs;
  bbuf = [];
  bangflag = flag;
}

rounds-next :
    (f : ℕ) (s : History) (cs : List ℕ) (r r' : Reader)
    → round s r r.state (get_or cs 0 0) ≡ next r'
    → rounds (suc f) s cs r ≡ rounds f s (drop 1 cs) r'
unfolding rounds
rounds-next f s cs r r' e = rw (rounds, e) refl

rounds-again :
    (f : ℕ) (s : History) (cs : List ℕ) (r r' : Reader)
    → round s r r.state (get_or cs 0 0) ≡ again r'
    → rounds (suc f) s cs r ≡ rounds f s cs r'
unfolding rounds
rounds-again f s cs r r' e = rw (rounds, e) refl

rounds-IsPlain :
    (f : ℕ) (s : History) (cs xs : List ℕ) (flag : Bool)
    → IsPlain cs
    → length cs < f
    → rounds f s cs (reader xs flag) ≡ some (success (reader (xs ++ cs) flag))
unfolding rounds round
rounds-IsPlain zero s cs xs flag plain fuel = absurd (omega (arith, fuel))
rounds-IsPlain (suc f) s [] xs flag plain fuel =
    ap (λ t. some (success (reader t flag))) (sym (append-nil xs))
rounds-IsPlain (suc f) s (c ∷ cs) xs flag plain fuel =
    rounds-next f s (c ∷ cs) (reader xs flag) (reader (xs ++ c ∷ []) flag)
      (rw (plain.0, plain.1, plain.2, plain.3, plain.4) refl)
    ∙ rounds-IsPlain f s cs (xs ++ c ∷ []) flag plain.5 (omega (arith, fuel))
    ∙ ap (λ t. some (success (reader t flag))) (append_assoc xs (c ∷ []) cs)

readline-success :
    (raw xs : List ℕ) (s : History) (flag : Bool)
    → rounds (fuel_for raw) s raw new_reader ≡ some (success (reader xs flag))
    → readline raw s ≡ some (xs, if length raw == 0 then s else saveline xs s)
unfolding finish readline
readline-success raw xs s flag e = rw (readline, e) refl

-- A line without `!`, quotes and back slashes is given back as it is, and saved if it has a
-- character.
pub readline-IsPlain :
    (raw : List ℕ) (s : History)
    → IsPlain raw
    → readline raw s ≡ some (raw, if length raw == 0 then s else saveline raw s)
readline-IsPlain raw s plain =
    readline-success raw raw s false
      (rounds-IsPlain (fuel_for raw) s raw [] false plain (omega arith))

-- `!!` stands for the line that was saved last, and plain characters after it come after that line.
pub readline-last :
    (rest line : List ℕ) (log : List (List ℕ)) (s : History)
    → Saved (line ∷ log) s
    → IsPlain rest
    → readline (33 ∷ 33 ∷ rest) s ≡ some (line ++ rest, saveline (line ++ rest) s)
readline-last rest line log s h plain =
    readline-success (33 ∷ 33 ∷ rest) (line ++ rest) s true (
      ap (λ f. rounds f s (33 ∷ 33 ∷ rest) new_reader) fuel
      ∙ rounds-next (suc f) s (33 ∷ 33 ∷ rest) new_reader (to st_bang new_reader)
          (unfold round in refl)
      ∙ rounds-next f s (33 ∷ rest) (to st_bang new_reader) (reader line true) bang
      ∙ rounds-IsPlain f s rest line true plain (omega arith))
    ∙ ap (λ b. some (line ++ rest, if b then s else saveline (line ++ rest) s)) not_empty
  where
    f : ℕ
    f = 3 * length rest + 8

    fuel : fuel_for (33 ∷ 33 ∷ rest) ≡ suc (suc f)
    fuel = omega arith

    not_empty : (suc (suc (length rest)) == 0) ≡ false
    not_empty = ground arith

    newest : recent (s.histnum - 1) (line ∷ log) ≡ some line
    newest =
        let q : (ltb (s.histnum - 1) (suc (length log))
              && leb (suc (length log)) (s.histnum - 1 + 128))
            ≡ true =
          ground (arith, h.0) in
        let z : suc (length log) - 1 - (s.histnum - 1) ≡ 0 = omega (arith, h.0) in rw (q, z) refl

    bang : round s (to st_bang new_reader) st_bang 33 ≡ next (reader line true)
    bang =
        unfold round expand in
        let some_line : (s.histnum == 0) ≡ false = ground (arith, h.0) in
        rw (some_line, histlookup_num_lem (s.histnum - 1) (line ∷ log) s h, newest) refl

-- The digits of a number, which fit into `bbuf`.
abbrev pub AreDigits : List ℕ → Type 0
AreDigits [] = Unit {0}
AreDigits (c ∷ cs) = (isdigit c ≡ true) × AreDigits cs

abbrev in_number : List ℕ → Reader
in_number ds = record {
  state = st_bangnum;
  pushed_state = st_line;
  buf = [];
  bbuf = ds;
  bangflag = true;
}

rounds-number :
    (f : ℕ) (s : History) (cs ds line : List ℕ)
    → AreDigits cs
    → length ds + length cs < 128
    → length cs + 2 ≤ f
    → histlookup_num ((stoli (ds ++ cs)).1) s ≡ some (some line)
    → rounds f s cs (in_number ds) ≡ some (success (reader line true))
unfolding rounds
rounds-number zero s cs ds line digit room fuel found = absurd (omega (arith, fuel))
rounds-number (suc zero) s cs ds line digit room fuel found = absurd (omega (arith, fuel))
rounds-number (suc (suc f)) s [] ds line digit room fuel found =
    rounds-again (suc f) s [] (in_number ds) (reader line true) ended ∙ unfold rounds round in refl
  where
    here : histlookup_num ((stoli ds).1) s ≡ some (some line)
    here = ap (λ t. histlookup_num ((stoli t).1) s) (sym (append-nil ds)) ∙ found

    ended : round s (in_number ds) st_bangnum 0 ≡ again (reader line true)
    ended = unfold round expand isdigit in rw here refl
rounds-number (suc (suc f)) s (c ∷ cs) ds line digit room fuel found =
    rounds-next (suc f) s (c ∷ cs) (in_number ds) (in_number (ds ++ c ∷ [])) stored
    ∙ rounds-number (suc f) s cs (ds ++ c ∷ []) line digit.1
        (omega (arith, room, length-append ds (c ∷ []))) (omega (arith, fuel))
        (ap (λ t. histlookup_num ((stoli t).1) s) (append_assoc ds (c ∷ []) cs) ∙ found)
  where
    stored : round s (in_number ds) st_bangnum c ≡ next (in_number (ds ++ c ∷ []))
    stored =
        unfold round put_bbuf in
        let fits : ltb (length ds) 127 ≡ true = ground (arith, room) in rw (digit.0, fits) refl

-- `!` with the digits of a number, at most 127, stands for the line with that number, if it is one
-- of the last 128 that were saved.
pub readline-number :
    (d num : ℕ) (ds line : List ℕ) (log : List (List ℕ)) (s : History)
    → Saved log s
    → AreDigits (d ∷ ds)
    → length ds < 127
    → (stoli (d ∷ ds)).1 ≡ num
    → recent num log ≡ some line
    → readline (33 ∷ d ∷ ds) s ≡ some (line, saveline line s)
readline-number d num ds line log s h digit room value found =
    readline-success (33 ∷ d ∷ ds) line s true (
      ap (λ f. rounds f s (33 ∷ d ∷ ds) new_reader) fuel
      ∙ rounds-next (suc f) s (33 ∷ d ∷ ds) new_reader (to st_bang new_reader)
          (unfold round in refl)
      ∙ rounds-again f s (d ∷ ds) (to st_bang new_reader) (in_number []) bang
      ∙ rounds-number f s (d ∷ ds) [] line digit (omega (arith, room)) (omega arith) (
          histlookup_num_lem ((stoli (d ∷ ds)).1) log s h
          ∙ ap some (ap (λ n. recent n log) value ∙ found)))
    ∙ ap (λ b. some (line, if b then s else saveline line s)) not_empty
  where
    f : ℕ
    f = 3 * length ds + 8

    fuel : fuel_for (33 ∷ d ∷ ds) ≡ suc (suc f)
    fuel = omega arith

    not_empty : (suc (suc (length ds)) == 0) ≡ false
    not_empty = ground arith

    bang : round s (to st_bang new_reader) st_bang d ≡ again (in_number [])
    bang =
        unfold round in
        let no_bang : (d == 33) ≡ false = unfold isdigit in ground (arith, digit.0) in
        rw (no_bang, digit.0) refl
