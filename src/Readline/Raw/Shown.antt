-- ===== src/Readline/Raw/Shown.antt =====
-- The terminal shows the line that is being edited.
use cobalt_rom.Prelude.{
  ℕ, suc, ◌+◌, ◌-◌, ◌≤◌, ◌<◌, ◌≡◌, refl, sym, ap, true, false, ◌&&◌, ltb, leb, ◌==◌, if◌then◌else◌,
  if_intro, List, [], ◌∷◌, length, get_or, arith,
}
use mathlib.Core.Path.{subst}
use cobalt_rom.Strbuf.Insert.{inserted, length-inserted, get_or-inserted}
use cobalt_rom.Strbuf.Delete.{deleted, length-deleted, get_or-deleted}
use cobalt_rom.Readline.Raw.{
  Editor, line, raw_putc, raw_cursor, cursor_end, with_line, raw_backspace,
}
use cobalt_rom.Readline.Raw.Moves.{IsShown, AreShown, At, At-row, At-putc, At-back, At-raw_cursor}

-- A line on an empty row.
abbrev pub row : List ℕ → ℕ → ℕ
row xs k = if ltb k (length xs) then get_or xs k 0 else 32

-- The terminal shows the line `xs` and nothing else, with its cursor at place `p` of the line.
abbrev pub Shown : Editor → List ℕ → ℕ → Type 0
Shown e xs p = At e xs p (row xs) × (p ≤ length xs) × AreShown xs

pub raw_cursor-Shown :
    (q : ℕ) (e : Editor) (xs : List ℕ) (p : ℕ)
    → Shown e xs p
    → q ≤ length xs
    → Shown (raw_cursor q e) xs q
raw_cursor-Shown q e xs p h fits = (
  At-row (raw_cursor q e) xs q _ (row xs) (At-raw_cursor q e xs p (row xs) h.0 h.2 fits h.1)
      (λ k. ground (arith, fits)),
  fits,
  h.2,
)

pub cursor_end-At :
    (e : Editor) (xs : List ℕ) (p : ℕ) (s : ℕ → ℕ)
    → At e xs p s
    → AreShown xs
    → p ≤ length xs
    → At
        (cursor_end e)
        xs
        (length xs)
        (λ k. if leb p k && ltb k (length xs) then get_or xs k 0 else s k)
cursor_end-At e xs p s h shown fits =
    subst
      (λ n.
        At (raw_cursor n e) xs (length xs)
          (λ k. if leb p k && ltb k (length xs) then get_or xs k 0 else s k))
      (sym (ap length h.0)) (At-raw_cursor (length xs) e xs p s h shown (omega arith) fits)

-- A line whose first `p` characters are on the row is shown when it is printed from there on.
printed-Shown :
    (q : ℕ) (e : Editor) (xs : List ℕ) (p : ℕ) (s : ℕ → ℕ)
    → At e xs p s
    → AreShown xs
    → p ≤ length xs
    → q ≤ length xs
    → ((k : ℕ) → k < p → s k ≡ get_or xs k 0)
    → ((k : ℕ) → length xs ≤ k → s k ≡ 32)
    → Shown (raw_cursor q (cursor_end e)) xs q
printed-Shown q e xs p s h shown here fits before after =
    raw_cursor-Shown q (cursor_end e) xs (length xs)
      (
        At-row (cursor_end e) xs (length xs) _ (row xs) (cursor_end-At e xs p s h shown here)
            (λ k. ground (arith, before k, after k)),
        omega arith,
        shown,
      )
      fits

inserted-AreShown :
    (p c : ℕ) (xs : List ℕ)
    → p ≤ length xs
    → AreShown xs
    → IsShown c
    → AreShown (inserted p (c ∷ []) xs)
inserted-AreShown p c xs h shown ok k lt = rw (get_or-inserted p (c ∷ []) xs k h) (
    if_intro {A = ℕ} IsShown (ltb k p) (λ e. shown k (ground (arith, e, h)))
      (λ e.
        if_intro {A = ℕ} IsShown (ltb k (p + 1))
          (λ f. let z : k - p ≡ 0 = ground (arith, e, f) in rw z ok)
          (λ f. shown (k - 1) (ground (arith, e, f, lt, length-inserted p (c ∷ []) xs h)))))

pub deleted-AreShown :
    (p : ℕ) (xs : List ℕ) → p + 1 ≤ length xs → AreShown xs → AreShown (deleted p 1 xs)
deleted-AreShown p xs h shown k lt = rw (get_or-deleted p 1 xs k h) (
    if_intro {A = ℕ} IsShown (ltb k p) (λ e. shown k (ground (arith, e, h)))
      (λ e. shown (k + 1) (ground (arith, lt, length-deleted p 1 xs h))))

-- The end of `type_char`, on a row that shows the line up to the cursor.
pub typed-Shown :
    (c : ℕ) (e : Editor) (xs : List ℕ) (p : ℕ) (s : ℕ → ℕ)
    → At e xs p s
    → AreShown xs
    → IsShown c
    → p ≤ length xs
    → ((k : ℕ) → k < p → s k ≡ get_or xs k 0)
    → ((k : ℕ) → length xs < k → s k ≡ 32)
    → Shown
        (raw_cursor (p + 1) (cursor_end (with_line (inserted p (c ∷ []) (line e)) e)))
        (inserted p (c ∷ []) xs)
        (p + 1)
typed-Shown c e xs p s h shown ok here before after =
    printed-Shown (p + 1) put (inserted p (c ∷ []) xs) p s
      (ap (inserted p (c ∷ [])) h.0, h.1, h.2, h.3) (inserted-AreShown p c xs here shown ok)
      (omega (arith, long, here)) (omega (arith, long, here))
      (λ k lt. ground (arith, before k lt, get_or-inserted p (c ∷ []) xs k here, lt))
      (λ k le. after k (omega (arith, le, long)))
  where
    put : Editor
    put = with_line (inserted p (c ∷ []) (line e)) e

    long : length (inserted p (c ∷ []) xs) ≡ length xs + 1
    long = length-inserted p (c ∷ []) xs here

At-erase :
    (e : Editor) (xs : List ℕ) (p : ℕ) (s : ℕ → ℕ)
    → At e xs p s
    → At (raw_putc 8 (raw_putc 32 e)) xs p (λ k. if k == p then 32 else s k)
At-erase e xs p s h =
    let back : p + 1 - 1 ≡ p = omega arith in
    subst (λ n. At (raw_putc 8 (raw_putc 32 e)) xs n (λ k. if k == p then 32 else s k)) back
      (At-back (raw_putc 32 e) xs (p + 1) _ (At-putc 32 e xs p s h (refl, refl)))

-- What a back space leaves on the row before the rest of the line is printed again.
pub shortened :
    (p : ℕ) (xs : List ℕ) (k : ℕ)
    → p < length xs
    → (k < p → row xs k ≡ get_or (deleted p 1 xs) k 0) × (length xs ≤ k → row xs k ≡ 32)
shortened p xs k h = (
  (λ lt. ground (arith, lt, h, get_or-deleted p 1 xs k (omega (arith, h)))),
  (λ le. ground (arith, le)),
)

pub raw_backspace-Shown :
    (e : Editor) (xs : List ℕ) (p : ℕ)
    → Shown e xs (suc p)
    → Shown (raw_backspace e) (deleted p 1 xs) p
unfolding raw_backspace
raw_backspace-Shown e xs p h =
    if_intro {A = Editor} (λ r. Shown r ys p) (e.rawpos == 0)
      (λ z. absurd (ground (arith, z, h.0.1)))
      (λ z. if_intro {A = Editor} (λ r. Shown r ys p) _ at_end inside)
  where
    ys : List ℕ
    ys = deleted p 1 xs

    long : length ys ≡ length xs - 1
    long = length-deleted p 1 xs (omega (arith, h.1))

    left : Editor
    left = raw_cursor (e.rawpos - 1) e

    cut : Editor
    cut = with_line (deleted left.rawpos 1 (line left)) left

    moved : Shown left xs p
    moved =
        subst (λ n. Shown (raw_cursor n e) xs p) (omega (arith, h.0.1))
          (raw_cursor-Shown p e xs (suc p) h (omega (arith, h.1)))

    cut-At : At cut ys p (row xs)
    cut-At = (rw (moved.0.1, moved.0.0) refl, moved.0.1, moved.0.2, moved.0.3)

    ys_shown : AreShown ys
    ys_shown = deleted-AreShown p xs (omega (arith, h.1)) h.2

    at_end : (cut.rawpos == length (line cut)) ≡ true → Shown (raw_putc 8 (raw_putc 32 cut)) ys p
    at_end z =
        let q : p ≡ length ys = ground (arith, z, cut-At.1, ap length cut-At.0) in
        (
          At-row (raw_putc 8 (raw_putc 32 cut)) ys p _ (row ys) (At-erase cut ys p (row xs) cut-At)
              (λ k. ground (arith, q, long, shortened p xs k (omega (arith, h.1)))),
          omega (arith, q),
          ys_shown,
        )

    whole : Shown (raw_putc 8 (raw_putc 32 (cursor_end cut))) ys (length ys)
    whole = (
      At-row (raw_putc 8 (raw_putc 32 (cursor_end cut))) ys (length ys) _ (row ys)
          (At-erase (cursor_end cut) ys (length ys) _
            (cursor_end-At cut ys p (row xs) cut-At ys_shown (omega (arith, long, h.1))))
          (λ k. ground (arith, long, shortened p xs k (omega (arith, h.1)), h.1)),
      omega arith,
      ys_shown,
    )

    inside :
        (cut.rawpos == length (line cut)) ≡ false
        → Shown (raw_cursor (e.rawpos - 1) (raw_putc 8 (raw_putc 32 (cursor_end cut)))) ys p
    inside z =
        subst (λ n. Shown (raw_cursor n (raw_putc 8 (raw_putc 32 (cursor_end cut)))) ys p)
          (omega (arith, h.0.1))
          (raw_cursor-Shown p (raw_putc 8 (raw_putc 32 (cursor_end cut))) ys (length ys) whole
            (omega (arith, long, h.1)))
