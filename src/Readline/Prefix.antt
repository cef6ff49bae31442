-- ===== src/Readline/Prefix.antt =====
-- The lookup of a line by its first characters.
use cobalt_rom.Prelude.{
  ℕ, zero, suc, ◌+◌, ◌-◌, ◌%◌, ◌<◌, ◌≡◌, refl, sym, ◌∙◌, ap, inl, inr, Bool, true, false,
  Bool-cases, Option, none, some, ltb, ◌==◌, if◌then◌else◌, List, [], ◌∷◌, length, get_or, take,
  arith,
}
use cobalt_rom.Readline.{History, histsz, h_prev, has_prefix, scan_str, histlookup_str}
use cobalt_rom.Readline.Saved.{Saved}

-- The first line of a list that starts with `str`.
abbrev pub first_with : List ℕ → List (List ℕ) → Option (List ℕ)
first_with str [] = none
first_with str (line ∷ lines) =
    if has_prefix str (some line) then some line else first_with str lines

-- The place of the entry `i` rounds back from the newest of `m`.
abbrev back : ℕ → ℕ → ℕ
back m i = (m + (histsz - 1 - i)) % histsz

h_prev-back : (m i : ℕ) → suc i < histsz → h_prev (back m i) ≡ back m (suc i)
unfolding h_prev
h_prev-back m i h = ground (arith, h)

last :
    (i : ℕ) (log : List (List ℕ)) (s : History)
    → Saved log s
    → i ≡ histsz - 1
    → (h_prev (back (length log) i) == h_prev s.histn) ≡ true
unfolding h_prev
last i log s h e = ground (arith, h.1, e)

not_last :
    (i : ℕ) (log : List (List ℕ)) (s : History)
    → Saved log s
    → i < histsz - 1
    → (h_prev (back (length log) i) == h_prev s.histn) ≡ false
unfolding h_prev
not_last i log s h lt = ground (arith, h.1, lt)

line_at :
    (i : ℕ) (log : List (List ℕ)) (s : History)
    → Saved log s
    → i < histsz
    → (s.history (back (length log) i)).h_line
      ≡ (if ltb i (length log) then some (get_or log i []) else none)
line_at i log s h lt = elim (Bool-cases (ltb i (length log))) [
  | inl e ↦
      let n : back (length log) i ≡ (length log - 1 - i) % histsz = ground (arith, e, lt) in
      let k : length log - 1 - (length log - 1 - i) ≡ i = ground (arith, e) in
      rw (n, h.4 (length log - 1 - i) (ground (arith, e)) (ground (arith, e, lt)), e, k) refl
  | inr e ↦ rw (h.5 (back (length log) i) (ground (arith, e, lt)) (ground (arith, e, lt)), e) refl
]

first_line :
    (i : ℕ) (log : List (List ℕ)) (line : List ℕ)
    → line ≡ get_or log (i + 0) []
    → line ≡ get_or log i []
first_line i log line e = e ∙ ap (λ t. get_or log t []) (omega arith)

scan_str-back :
    (f i : ℕ) (str : List ℕ) (log rest : List (List ℕ)) (s : History)
    → Saved log s
    → length rest ≡ length log - i
    → ((k : ℕ) → get_or rest k [] ≡ get_or log (i + k) [])
    → i + f ≡ histsz - 1
    → scan_str (suc f) str (back (length log) i) s ≡ some (first_with str (take (suc f) rest))
unfolding scan_str has_prefix
scan_str-back zero i str log [] s h len same fuel =
    let none_left : ltb i (length log) ≡ false = ground (arith, len) in
    rw (line_at i log s h (omega (arith, fuel)), none_left, last i log s h (omega (arith, fuel)))
      refl
scan_str-back zero i str log (line ∷ rest) s h len same fuel =
    let used : ltb i (length log) ≡ true = ground (arith, len) in
    rw
      (
        line_at i log s h (omega (arith, fuel)),
        used,
        sym (first_line i log line (same 0)),
        last i log s h (omega (arith, fuel)),
      )
      (shared (has_prefix str (some line)))
  where
    shared :
        (b : Bool)
        → (if b then some (some line) else some none) ≡ some (if b then some line else none)
    shared true = refl
    shared false = refl
scan_str-back (suc f) i str log [] s h len same fuel =
    let none_left : ltb i (length log) ≡ false = ground (arith, len) in
    rw
      (
        line_at i log s h (omega (arith, fuel)),
        none_left,
        not_last i log s h (omega (arith, fuel)),
        h_prev-back (length log) i (omega (arith, fuel)),
      )
      (scan_str-back f (suc i) str log [] s h (omega (arith, len))
        (λ k. same (suc k) ∙ ap (λ t. get_or log t []) (omega arith)) (omega (arith, fuel)))
scan_str-back (suc f) i str log (line ∷ rest) s h len same fuel =
    let used : ltb i (length log) ≡ true = ground (arith, len) in
    let more =
      scan_str-back f (suc i) str log rest s h (omega (arith, len))
        (λ k. same (suc k) ∙ ap (λ t. get_or log t []) (omega arith)) (omega (arith, fuel)) in
    rw
      (
        line_at i log s h (omega (arith, fuel)),
        used,
        sym (first_line i log line (same 0)),
        not_last i log s h (omega (arith, fuel)),
        h_prev-back (length log) i (omega (arith, fuel)),
        more,
      )
      (shared (has_prefix str (some line)))
  where
    shared :
        (b : Bool)
        → (if b then some (some line) else some (first_with str (take (suc f) rest)))
          ≡ some (if b then some line else first_with str (take (suc f) rest))
    shared true = refl
    shared false = refl

-- histlookup_str goes around the ring once and gives the newest of the last 128 lines that starts
-- with the characters, and none if no line does.
pub histlookup_str_lem :
    (str : List ℕ) (log : List (List ℕ)) (s : History)
    → Saved log s
    → histlookup_str str s ≡ some (first_with str (take histsz log))
unfolding histlookup_str
histlookup_str_lem str log s h =
    let start : h_prev s.histn ≡ back (length log) 0 = unfold h_prev in ground (arith, h.1) in
    ap (λ k. scan_str histsz str k s) start
    ∙ scan_str-back 127 0 str log log s h (omega arith)
        (λ k. ap (λ t. get_or log t []) (omega arith)) (omega arith)
