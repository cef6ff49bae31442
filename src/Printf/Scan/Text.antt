-- ===== src/Printf/Scan/Text.antt =====
-- printf of a text without conversions.
use cobalt_rom.Prelude.{
  ℕ, zero, suc, ◌+◌, ◌<◌, ◌≡◌, refl, sym, ◌∙◌, ap, true, false, none, some, ◌==◌, ==_iff,
  if◌then◌else◌, List, [], ◌∷◌, ◌++◌, length, get_or, arith,
}
use mathlib.Core.Path.{subst}
use mathlib.Core.List.{append-nil, append_assoc}
use cobalt_rom.Strbuf.{grow, Strbuf, init, append, appendc, realloc}
use cobalt_rom.Strbuf.Holds.{Holds, HasRoom}
use cobalt_rom.Strbuf.Append.{accepted, append_lem}
use cobalt_rom.Printf.Scan.{
  ◌>>=◌, Arg, Job, rounds, step, put_char, sprintf_core, puts, c_string, string_of, printf,
}

-- Neither `%` nor NUL.
abbrev pub IsText : List ℕ → Type 0
IsText [] = Unit
IsText (c ∷ cs) = ((c == 37) ≡ false) × ((c == 0) ≡ false) × IsText cs

-- The characters from place `i` on are `ys`, and then there is a NUL.
pub c_string_lem :
    (n i : ℕ) (ys : List ℕ) (b : ℕ → ℕ)
    → ((k : ℕ) → k < length ys → b (i + k) ≡ get_or ys k 0)
    → IsText ys
    → b (i + length ys) ≡ 0
    → length ys < n
    → c_string n i b ≡ ys
unfolding c_string
c_string_lem zero i ys b at text ends h = absurd (omega (arith, h))
c_string_lem (suc n) i [] b at text ends h =
    let z : (b i == 0) ≡ true = (==_iff (b i) 0).1 (ap b (omega arith) ∙ ends) in rw z refl
c_string_lem (suc n) i (y ∷ ys) b at text ends h =
    let q : b i ≡ y = ap b (omega arith) ∙ at 0 (omega arith) in
    let z : (b i == 0) ≡ false = ap (λ t. t == 0) q ∙ text.1 in
    rw z (
      ap (λ t. t ∷ c_string n (i + 1) b) q
      ∙ ap (λ t. y ∷ t)
          (c_string_lem n (i + 1) ys b (λ k lt. ap b (omega arith) ∙ at (suc k) (omega (arith, lt)))
            text.2 (ap b (omega arith) ∙ ends) (omega (arith, h))))

pub c_string-Holds :
    (s : Strbuf) (xs : List ℕ) → Holds s xs → IsText xs → c_string s.room 0 s.buf ≡ xs
c_string-Holds s xs h text =
    c_string_lem s.room 0 xs s.buf (λ k lt. ap s.buf (omega arith) ∙ h.0.1 k lt) text
      (ap s.buf (omega arith) ∙ h.1) (omega (arith, h.2, h.0.0))

-- A job whose buffer grows and holds `xs`.
abbrev Printed : Job → List ℕ → Type 0
Printed j xs = Holds j.out xs × (j.out.max ≡ grow)

put_char-Printed :
    (c : ℕ) (j : Job) (xs : List ℕ)
    → (c == 0) ≡ false
    → Printed j xs
    → (j' : Job) × (put_char c j ≡ some j') × Printed j' (xs ++ c ∷ [])
unfolding put_char appendc
put_char-Printed c j xs nz h =
    let put =
      append_lem (c ∷ []) xs j.out h.0
        (subst (λ m. HasRoom m (length xs + 1) j.out.room) (sym h.1) tt) in
    (
      record j { out = put.0 },
      rw (nz, put.1) refl,
      (subst (λ m. Holds (put.0) (xs ++ accepted m (length xs) (c ∷ []))) h.1 put.2, put.3 ∙ h.1),
    )

rounds-Printed :
    (f : ℕ) (fmt xs : List ℕ) (j : Job)
    → Printed j xs
    → IsText fmt
    → length fmt < f
    → (j' : Job) × (rounds f fmt j ≡ some j') × Printed j' (xs ++ fmt)
unfolding rounds step
rounds-Printed zero fmt xs j h text fuel = absurd (omega (arith, fuel))
rounds-Printed (suc f) [] xs j h text fuel =
    (j, refl, (subst (Holds j.out) (sym (append-nil xs)) h.0, h.1))
rounds-Printed (suc f) (p ∷ ps) xs j h text fuel =
    let one = put_char-Printed p j xs text.1 h in
    let rest = rounds-Printed f ps (xs ++ p ∷ []) (one.0) one.2 text.2 (omega (arith, fuel)) in
    (
      rest.0,
      rw (text.0, one.1) rest.1,
      (subst (Holds (rest.0.out)) (append_assoc xs (p ∷ []) ps) rest.2.0, rest.2.1),
    )

-- The first character goes into memory that the buffer gets for it.
rounds-first :
    (f p : ℕ) (ps : List ℕ) (j : Job)
    → (p == 37) ≡ false
    → (p == 0) ≡ false
    → j.out.max ≡ grow
    → rounds (suc f) (p ∷ ps) j
      ≡ rounds (suc f) (p ∷ ps) (record j { out = record j.out { room = 1 } })
unfolding rounds step put_char appendc append realloc
rounds-first f p ps j np nz g = rw (np, nz, g) refl

-- Of a text without `%`, printf sends each character, and a carriage return after each new line,
-- and returns the length. Of the empty text it sends "(NULL)".
pub printf_text :
    (fmt : List ℕ) (vs : List Arg)
    → IsText fmt
    → printf fmt vs ≡ some (length fmt, puts (if length fmt == 0 then none else some fmt))
unfolding printf init
printf_text [] vs text = unfold init sprintf_core rounds string_of in refl
printf_text (p ∷ ps) vs text =
    ap (λ o. o >>= λ j. some (j.out.len, puts (string_of j.out))) core
    ∙ ap (λ n. some (n, puts (string_of (run.0.out)))) run.2.0.0.0
    ∙ ap (λ o. some (length (p ∷ ps), puts o)) shown
  where
    start : Job
    start = record {
      out = record { len = 0; max = grow; room = 0; buf = λ k. 0 };
      args = vs;
      counts = [];
    }

    roomy : Job
    roomy = record start { out = record start.out { room = 1 } }

    run : (j : Job) × (rounds (suc (suc (length ps))) (p ∷ ps) roomy ≡ some j) × Printed j (p ∷ ps)
    run =
        rounds-Printed (suc (suc (length ps))) (p ∷ ps) [] roomy
          (((refl, λ k lt. absurd (omega (arith, lt))), refl, omega arith, tt), refl) text
          (omega arith)

    core : sprintf_core (p ∷ ps) start ≡ some (run.0)
    core =
        unfold sprintf_core in
        ap (λ n. rounds n (p ∷ ps) start) (omega arith)
        ∙ rounds-first (suc (length ps)) p ps start text.0 text.1 refl
        ∙ run.1

    shown : string_of (run.0.out) ≡ (if length (p ∷ ps) == 0 then none else some (p ∷ ps))
    shown =
        unfold string_of in
        let some_room : (run.0.out.room == 0) ≡ false = ground (arith, run.2.0.2) in
        let some_text : (length (p ∷ ps) == 0) ≡ false = ground arith in
        rw (some_room, some_text) (ap some (c_string-Holds (run.0.out) (p ∷ ps) run.2.0 text))
