-- ===== src/Readline/Saved.antt =====
-- The ring of the history against the list of the lines that were saved.
use cobalt_rom.Prelude.{
  ℕ, suc, ◌+◌, ◌-◌, ◌%◌, ◌≤◌, ◌<◌, ◌≡◌, refl, ◌∙◌, ap, inl, inr, true, false, Bool-cases, some, ltb,
  leb, ◌==◌, ==_iff, if◌then◌else◌, List, [], ◌∷◌, length, get_or, arith,
}
use cobalt_rom.Readline.{History, histsz, unused, no_history, h_next, saveline}

-- The line with number `n` of a list that has the newest line first.
abbrev pub numbered : List (List ℕ) → ℕ → List ℕ
numbered log n = get_or log (length log - 1 - n) []

-- The history has the last 128 lines of `log`, each in the place that its number gives, and its
-- other entries are unused.
abbrev pub Saved : List (List ℕ) → History → Type 0
Saved log s =
    (s.histnum ≡ length log)
    × (s.histn ≡ length log % histsz)
    × (s.hist0 ≡ (if ltb (length log) histsz then 0 else length log % histsz))
    × (s.sync ≡ leb histsz (length log))
    × ((n : ℕ)
        → n < length log
        → length log ≤ n + histsz
        → s.history (n % histsz) ≡ record { h_num = n; h_line = some (numbered log n) })
    × ((k : ℕ) → length log ≤ k → k < histsz → s.history k ≡ unused)

pub Saved-nil : Saved [] no_history
Saved-nil = (refl, refl, refl, refl, λ n lt le. absurd (omega (arith, lt)), λ k le lt. refl)

pub h_next-mod : (m : ℕ) → h_next (m % histsz) ≡ (m + 1) % histsz
unfolding h_next
h_next-mod m = ground arith

-- saveline puts a line before the others of the list.
pub saveline-Saved :
    (line : List ℕ) (log : List (List ℕ)) (s : History)
    → Saved log s
    → Saved (line ∷ log) (saveline line s)
unfolding saveline
saveline-Saved line log s h = (
  omega (arith, h.0),
  n',
  ground (arith, h.2, h.3, n'),
  ground (arith, h.2, h.3, n'),
  λ n lt le. slot n (omega (arith, lt)) (omega (arith, le)),
  λ k le lt. free k (omega (arith, le)) lt,
)
  where
    n' : h_next s.histn ≡ suc (length log) % histsz
    n' = rw (h.1) (h_next-mod (length log) ∙ ap (λ t. t % histsz) (omega arith))

    slot :
        (n : ℕ)
        → n ≤ length log
        → length log < n + histsz
        → (if n % histsz == s.histn
            then record { h_num = s.histnum; h_line = some line }
            else s.history (n % histsz))
          ≡ record { h_num = n; h_line = some (numbered (line ∷ log) n) }
    slot n le lt = elim (Bool-cases (n == length log)) [
      | inl e ↦
          let p : n ≡ length log = (==_iff n (length log)).0 e in
          let q : (n % histsz == s.histn) ≡ true = ground (arith, p, h.1) in
          let num : s.histnum ≡ n = omega (arith, h.0, p) in
          let z : suc (length log) - 1 - n ≡ 0 = omega (arith, p) in rw (q, num, z) refl
      | inr e ↦
          let q : (n % histsz == s.histn) ≡ false = ground (arith, e, h.1, le, lt) in
          let z : suc (length log) - 1 - n ≡ suc (length log - 1 - n) = ground (arith, e, le) in
          rw (q, z) (h.4 n (ground (arith, e, le)) (omega (arith, lt)))
    ]

    free :
        (k : ℕ)
        → suc (length log) ≤ k
        → k < histsz
        → (if k == s.histn then record { h_num = s.histnum; h_line = some line } else s.history k)
          ≡ unused
    free k le lt =
        let q : (k == s.histn) ≡ false = ground (arith, h.1, le, lt) in
        rw q (h.5 k (omega (arith, le)) lt)
