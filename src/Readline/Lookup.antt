-- ===== src/Readline/Lookup.antt =====
-- The lookup of a line by its number.
use cobalt_rom.Prelude.{
  ℕ, zero, suc, ◌+◌, ◌-◌, ◌%◌, ◌≤◌, ◌<◌, ◌≡◌, refl, ◌∙◌, ap, inl, inr, true, false, ◌&&◌,
  Bool-cases, Option, none, some, ltb, leb, ◌==◌, ==_iff, if◌then◌else◌, List, [], ◌∷◌, length,
  arith,
}
use cobalt_rom.Readline.{History, histsz, unused, h_next, scan_num, histlookup_num}
use cobalt_rom.Readline.Saved.{Saved, numbered, h_next-mod}

-- The line that a number stands for, if it is one of the last 128.
abbrev pub recent : ℕ → List (List ℕ) → Option (List ℕ)
recent num log =
    if ltb num (length log) && leb (length log) (num + histsz)
    then some (numbered log num)
    else none

-- The loop from the entry of line `j` on.
scan_num-from :
    (f j num : ℕ) (log : List (List ℕ)) (s : History)
    → Saved log s
    → j < length log
    → length log ≤ j + histsz
    → length log ≤ j + f
    → scan_num f num (j % histsz) s
      ≡ some (if leb j num && ltb num (length log) then some (numbered log num) else none)
unfolding scan_num
scan_num-from zero j num log s h lt le fuel = absurd (omega (arith, lt, fuel))
scan_num-from (suc f) j num log s h lt le fuel = elim (Bool-cases (j == num)) [
  | inl e ↦
      let p : j ≡ num = (==_iff j num).0 e in
      let q : (leb j num && ltb num (length log)) ≡ true = ground (arith, p, lt) in
      rw (h.4 j lt le, e, q) (ap (λ t. some (some (numbered log t))) p)
  | inr e ↦ elim (Bool-cases (suc j == length log)) [
    | inl last ↦
        let stop : (h_next (j % histsz) == s.histn) ≡ true =
          ground (arith, h_next-mod j, h.1, last) in
        let q : (leb j num && ltb num (length log)) ≡ false = ground (arith, e, last) in
        rw (h.4 j lt le, e, stop, q) refl
    | inr more ↦
        let on : (h_next (j % histsz) == s.histn) ≡ false =
          ground (arith, h_next-mod j, h.1, more, lt, le) in
        let q : (leb j num && ltb num (length log)) ≡ (leb (suc j) num && ltb num (length log)) =
          ground (arith, e) in
        let at : h_next (j % histsz) ≡ suc j % histsz = ground (arith, h_next-mod j) in
        rw (h.4 j lt le, e, on, q, at)
          (scan_num-from f (suc j) num log s h (ground (arith, more, lt)) (omega (arith, le))
            (omega (arith, fuel)))
  ]
]

-- The loop over entries that are not used yet.
scan_num-unused :
    (f k num : ℕ) (s : History)
    → ((i : ℕ) → i < histsz → s.history i ≡ unused)
    → s.histn ≡ 0
    → k < histsz
    → histsz ≤ k + f
    → scan_num f num k s ≡ some none
unfolding scan_num
scan_num-unused zero k num s all n lt fuel = absurd (omega (arith, lt, fuel))
scan_num-unused (suc f) k num s all n lt fuel = elim (Bool-cases (0 == num)) [
  | inl e ↦ rw (all k lt, e) refl
  | inr e ↦ elim (Bool-cases (k == histsz - 1)) [
    | inl last ↦
        let stop : (h_next k == s.histn) ≡ true = unfold h_next in ground (arith, n, last) in
        rw (all k lt, e, stop) refl
    | inr more ↦
        let at : h_next k ≡ suc k = unfold h_next in ground (arith, more) in
        let on : (h_next k == s.histn) ≡ false = ground (arith, n, at) in
        rw (all k lt, e, on, at)
          (scan_num-unused f (suc k) num s all n (ground (arith, more, lt)) (omega (arith, fuel)))
  ]
]

-- histlookup_num goes around the ring at most once and gives the line with that number among the
-- last 128 that were saved, and none for every other number.
pub histlookup_num_lem :
    (num : ℕ) (log : List (List ℕ)) (s : History)
    → Saved log s
    → histlookup_num num s ≡ some (recent num log)
unfolding histlookup_num
histlookup_num_lem num [] s h =
    ap (λ k. scan_num histsz num k s) (h.2)
    ∙ scan_num-unused histsz 0 num s (λ i lt. h.5 i (omega arith) lt) h.1 (omega arith)
        (omega arith)
    ∙ ap some nothing
  where
    nothing : none ≡ recent num []
    nothing = let q : (ltb num 0 && leb 0 (num + histsz)) ≡ false = ground arith in rw q refl
histlookup_num_lem num (x ∷ log) s h =
    ap (λ k. scan_num histsz num k s) start
    ∙ scan_num-from histsz j num (x ∷ log) s h (omega arith) (omega arith) (omega arith)
    ∙ ap (λ b. some (if b then some (numbered (x ∷ log) num) else none)) same
  where
    j : ℕ
    j = suc (length log) - histsz

    start : s.hist0 ≡ j % histsz
    start = ground (arith, h.2)

    same :
        (leb j num && ltb num (suc (length log)))
        ≡ (ltb num (suc (length log)) && leb (suc (length log)) (num + histsz))
    same = ground arith
