-- ===== src/Readline/Raw/Moves.antt =====
-- What the moves of the cursor do to the row of the terminal.
use cobalt_rom.Prelude.{
  ℕ, zero, suc, ◌+◌, ◌-◌, ◌≤◌, ◌<◌, ◌≡◌, refl, sym, ◌∙◌, ap, inl, inr, false, ◌||◌, ◌&&◌,
  Bool-cases, ltb, leb, ◌==◌, ==_iff, if◌then◌else◌, List, length, get_or, arith,
}
use mathlib.Core.Path.{subst}
use cobalt_rom.Readline.Raw.{Editor, line, raw_putc, forward, backward, raw_cursor}

-- A character that raw_putc shows.
abbrev pub IsShown : ℕ → Type 0
IsShown c = ((c == 8) ≡ false) × (((c == 10) || (c == 13)) ≡ false)

abbrev pub AreShown : List ℕ → Type 0
AreShown xs = (k : ℕ) → k < length xs → IsShown (get_or xs k 0)

-- The editor has the line `xs` and the cursor, here and on the terminal, at `p` of the row `s`.
abbrev pub At : Editor → List ℕ → ℕ → (ℕ → ℕ) → Type 0
At e xs p s = (line e ≡ xs) × (e.rawpos ≡ p) × (e.column ≡ p) × ((k : ℕ) → e.screen k ≡ s k)

pub At-row :
    (e : Editor) (xs : List ℕ) (p : ℕ) (s t : ℕ → ℕ)
    → At e xs p s
    → ((k : ℕ) → s k ≡ t k)
    → At e xs p t
At-row e xs p s t h same = (h.0, h.1, h.2, λ k. h.3 k ∙ same k)

pub At-putc :
    (c : ℕ) (e : Editor) (xs : List ℕ) (p : ℕ) (s : ℕ → ℕ)
    → At e xs p s
    → IsShown c
    → At (raw_putc c e) xs (p + 1) (λ k. if k == p then c else s k)
unfolding raw_putc
At-putc c e xs p s h shown =
    rw (shown.0, shown.1) (h.0, omega (arith, h.1), omega (arith, h.2), λ k. rw (h.2, h.3 k) refl)

pub At-back :
    (e : Editor) (xs : List ℕ) (p : ℕ) (s : ℕ → ℕ) → At e xs p s → At (raw_putc 8 e) xs (p - 1) s
unfolding raw_putc
At-back e xs p s h = (h.0, omega (arith, h.1), omega (arith, h.2), h.3)

At-forward :
    (n : ℕ) (e : Editor) (xs : List ℕ) (p : ℕ) (s : ℕ → ℕ)
    → At e xs p s
    → AreShown xs
    → p + n ≤ length xs
    → At (forward n e) xs (p + n) (λ k. if leb p k && ltb k (p + n) then get_or xs k 0 else s k)
unfolding forward
At-forward zero e xs p s h shown fits =
    (h.0, omega (arith, h.1), omega (arith, h.2), λ k. ground (arith, h.3 k))
At-forward (suc n) e xs p s h shown fits =
    let rest =
      At-forward n (raw_putc (get_or (line e) e.rawpos 0) e) xs (p + 1)
        (λ k. if k == p then get_or xs p 0 else s k) printed shown (omega (arith, fits)) in
    (rest.0, omega (arith, rest.1), omega (arith, rest.2), λ k. rest.3 k ∙ same k)
  where
    char : get_or (line e) e.rawpos 0 ≡ get_or xs p 0
    char = rw (h.0, h.1) refl

    printed :
        At
          (raw_putc (get_or (line e) e.rawpos 0) e)
          xs
          (p + 1)
          (λ k. if k == p then get_or xs p 0 else s k)
    printed =
        subst (λ c. At (raw_putc c e) xs (p + 1) (λ k. if k == p then get_or xs p 0 else s k))
          (sym char) (At-putc (get_or xs p 0) e xs p s h (shown p (omega (arith, fits))))

    same :
        (k : ℕ)
        → (if leb (p + 1) k && ltb k (p + 1 + n)
            then get_or xs k 0
            else (if k == p then get_or xs p 0 else s k))
          ≡ (if leb p k && ltb k (p + suc n) then get_or xs k 0 else s k)
    same k = elim (Bool-cases (k == p)) [
      | inl e ↦ let q : k ≡ p = (==_iff k p).0 e in rw (q) (ground arith)
      | inr e ↦ ground (arith, e)
    ]

At-backward :
    (n : ℕ) (e : Editor) (xs : List ℕ) (p : ℕ) (s : ℕ → ℕ)
    → At e xs p s
    → At (backward n e) xs (p - n) s
unfolding backward
At-backward zero e xs p s h = (h.0, omega (arith, h.1), omega (arith, h.2), h.3)
At-backward (suc n) e xs p s h =
    let rest = At-backward n (raw_putc 8 e) xs (p - 1) s (At-back e xs p s h) in
    (rest.0, omega (arith, rest.1), omega (arith, rest.2), rest.3)

-- raw_cursor prints the line from where it is to where it goes.
pub At-raw_cursor :
    (q : ℕ) (e : Editor) (xs : List ℕ) (p : ℕ) (s : ℕ → ℕ)
    → At e xs p s
    → AreShown xs
    → q ≤ length xs
    → p ≤ length xs
    → At (raw_cursor q e) xs q (λ k. if leb p k && ltb k q then get_or xs k 0 else s k)
unfolding raw_cursor
At-raw_cursor q e xs p s h shown fits here =
    rw inside
      (moved.0, omega (arith, moved.1), omega (arith, moved.2), λ k. moved.3 k ∙ ground arith)
  where
    inside : ltb (length (line e)) q ≡ false
    inside = ground (arith, ap length h.0, fits)

    moved :
        At
          (backward (e.rawpos - q) (forward (q - e.rawpos) e))
          xs
          (p + (q - p) - (p - q))
          (λ k. if leb p k && ltb k (p + (q - p)) then get_or xs k 0 else s k)
    moved =
        subst
          (λ r.
            At (backward (r - q) (forward (q - r) e)) xs (p + (q - p) - (p - q))
              (λ k. if leb p k && ltb k (p + (q - p)) then get_or xs k 0 else s k))
          (sym h.1)
          (At-backward (p - q) (forward (q - p) e) xs (p + (q - p)) _
            (At-forward (q - p) e xs p s h shown (omega (arith, fits, here))))
