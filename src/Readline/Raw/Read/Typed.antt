-- ===== src/Readline/Raw/Read/Typed.antt =====
-- raw_read of a line that is typed without a slip.
use cobalt_rom.Prelude.{
  ℕ, ◌+◌, ◌≤◌, ◌<◌, ◌≡◌, refl, sym, ◌∙◌, ap, inl, inr, Bool, false, Bool-cases, Option, none, some,
  ltb, List, [], ◌∷◌, ◌++◌, length, arith, length-append, take_all,
}
use mathlib.Core.Path.{subst}
use cobalt_rom.Strbuf.Insert.{inserted}
use cobalt_rom.Readline.{History}
use cobalt_rom.Readline.Raw.{Editor, text, line, type_char, raw_putc}
use cobalt_rom.Readline.Raw.Shown.{Shown}
use cobalt_rom.Readline.Raw.Keys.{drop_beyond, append_none, typed, type_char-Shown}
use cobalt_rom.Readline.Raw.Read.{
  plain, Outcome, more, done, stuck, plain_key, key, keys, new_line, raw_read,
}

abbrev pub ArePrintable : List ℕ → Type 0
ArePrintable [] = Unit
ArePrintable (c ∷ cs) = (32 ≤ c) × (c < 127) × ArePrintable cs

typed-end : (over : Bool) (c : ℕ) (xs : List ℕ) → typed over (length xs) c xs ≡ xs ++ (c ∷ [])
typed-end over c xs = elim (Bool-cases over) [
  | inl o ↦ let n : ltb (length xs) (length xs) ≡ false = ground arith in rw (o, n) put
  | inr o ↦ rw o put
]
  where
    put : inserted (length xs) (c ∷ []) xs ≡ xs ++ (c ∷ [])
    put = rw (take_all (length xs) xs (omega arith), drop_beyond (length xs) xs (omega arith)) refl

plain_key-typed :
    (h : History) (c : ℕ) (e : Editor)
    → 32 ≤ c
    → c < 127
    → plain_key h c e ≡ more plain (type_char c e)
unfolding plain_key
plain_key-typed h c e low high = ground (arith, low, high)

append_assoc_one : (c : ℕ) (xs cs : List ℕ) → (xs ++ (c ∷ [])) ++ cs ≡ xs ++ (c ∷ cs)
append_assoc_one c [] cs = refl
append_assoc_one c (x ∷ xs) cs = ap (λ t. x ∷ t) (append_assoc_one c xs cs)

keys-cons :
    (h : History) (c : ℕ) (cs : List ℕ) (e : Editor)
    → 32 ≤ c
    → c < 127
    → keys h (c ∷ cs) plain e ≡ keys h cs plain (type_char c e)
unfolding keys key
keys-cons h c cs e low high =
    ap
      (λ o. elim o as (λ x. Outcome) [
        | more a' e' ↦ keys h cs a' e'
        | done e' ↦ done e'
        | stuck ↦ stuck
      ])
      (plain_key-typed h c e low high)

keys-typed :
    (h : History) (cs xs : List ℕ) (e : Editor)
    → Shown e xs (length xs)
    → ArePrintable cs
    → (e' : Editor) × (keys h (cs ++ (13 ∷ [])) plain e ≡ done e') × (line e' ≡ xs ++ cs)
keys-typed h [] xs e shown ok =
    (e, unfold keys key plain_key in refl, shown.0.0 ∙ sym (append_none xs))
keys-typed h (c ∷ cs) xs e shown ok =
    let rest = keys-typed h cs (xs ++ (c ∷ [])) (type_char c e) entered ok.2 in
    (
      rest.0,
      keys-cons h c (cs ++ (13 ∷ [])) e ok.0 ok.1 ∙ rest.1,
      rest.2 ∙ append_assoc_one c xs cs,
    )
  where
    long : length (xs ++ (c ∷ [])) ≡ length xs + 1
    long = length-append xs (c ∷ [])

    entered : Shown (type_char c e) (xs ++ (c ∷ [])) (length (xs ++ (c ∷ [])))
    entered =
        subst (λ n. Shown (type_char c e) (xs ++ (c ∷ [])) n) (sym long)
          (subst (λ t. Shown (type_char c e) t (length xs + 1)) (typed-end e.overwrite c xs)
            (type_char-Shown c e xs (length xs) shown (ground (arith, ok.0), ground (arith, ok.0))))

raw_read-done :
    (h : History) (cs xs : List ℕ) (e e' : Editor)
    → keys h cs plain (new_line e) ≡ done e'
    → line e' ≡ xs
    → raw_read h cs e ≡ some (xs, raw_putc 10 e')
unfolding raw_read
raw_read-done h cs xs e e' run read =
    ap
      (λ o. elim o as (λ x. Option (List ℕ × Editor)) [
        | more a w ↦ none
        | done w ↦ some (text w.buf, raw_putc 10 w)
        | stuck ↦ none
      ])
      run
    ∙ ap (λ t. some (t, raw_putc 10 e')) read

-- Printable characters and return, typed on an empty row of the terminal: raw_read returns the
-- characters, in overwrite mode too.
pub raw_read-typed :
    (h : History) (cs : List ℕ) (e : Editor)
    → e.column ≡ 0
    → ((k : ℕ) → e.screen k ≡ 32)
    → ArePrintable cs
    → (e' : Editor) × (raw_read h (cs ++ (13 ∷ [])) e ≡ some (cs, e'))
raw_read-typed h cs e left empty ok =
    let shown : Shown (new_line e) [] 0 = (
      (refl, refl, left, λ k. empty k ∙ ground arith),
      omega arith,
      λ k lt. absurd (omega (arith, lt)),
    ) in
    let run = keys-typed h cs [] (new_line e) shown ok in
    (raw_putc 10 (run.0), raw_read-done h (cs ++ (13 ∷ [])) cs e (run.0) (run.1) (run.2))
