-- ===== src/Readline/Raw/Keys.antt =====
-- What the keys of raw_read do to the line and to the terminal.
use cobalt_rom.Prelude.{
  ℕ, zero, suc, ◌+◌, ◌-◌, ◌≤◌, ◌<◌, ◌≡◌, refl, sym, ◌∙◌, ap, inl, inr, Bool, true, false, ◌&&◌,
  Bool-cases, Option, none, some, ltb, if◌then◌else◌, List, [], ◌∷◌, ◌++◌, length, take, arith,
  drop,
}
use mathlib.Core.Path.{subst}
use cobalt_rom.Strbuf.Insert.{inserted}
use cobalt_rom.Strbuf.Delete.{deleted, length-deleted}
use cobalt_rom.Readline.Raw.{
  Editor, text, line, raw_cursor, cursor_end, with_line, raw_backspace, backspaces, clear_to_bol,
  clear_to_eol, type_char,
}
use cobalt_rom.Readline.Raw.Moves.{IsShown}
use cobalt_rom.Readline.Raw.Shown.{
  Shown, row, raw_cursor-Shown, typed-Shown, deleted-AreShown, raw_backspace-Shown, shortened,
}

deleted-cons : (q m x : ℕ) (xs : List ℕ) → deleted (suc q) m (x ∷ xs) ≡ x ∷ deleted q m xs
deleted-cons q m x xs = let e : suc q + m ≡ suc (q + m) = omega arith in rw e refl

deleted-none : (p : ℕ) (xs : List ℕ) → deleted p 0 xs ≡ xs
deleted-none zero xs = refl
deleted-none (suc p) [] = let e : suc p + 0 ≡ suc p = omega arith in rw e refl
deleted-none (suc p) (x ∷ xs) = deleted-cons p 0 x xs ∙ ap (λ t. x ∷ t) (deleted-none p xs)

drop-deleted : (m : ℕ) (xs : List ℕ) → m + 1 ≤ length xs → drop m (deleted m 1 xs) ≡ drop (suc m) xs
drop-deleted zero xs h = refl
drop-deleted (suc m) [] h = absurd (omega (arith, h))
drop-deleted (suc m) (x ∷ xs) h =
    ap (drop (suc m)) (deleted-cons m 1 x xs) ∙ drop-deleted m xs (omega (arith, h))

deleted-deleted :
    (q m : ℕ) (xs : List ℕ)
    → q + m + 1 ≤ length xs
    → deleted q m (deleted (q + m) 1 xs) ≡ deleted q (suc m) xs
deleted-deleted zero m xs h =
    let e : 0 + m ≡ m = omega arith in
    let f : 0 + suc m ≡ suc m = omega arith in rw (e, f) (drop-deleted m xs (omega (arith, h)))
deleted-deleted (suc q) m [] h = absurd (omega (arith, h))
deleted-deleted (suc q) m (x ∷ xs) h =
    let e : suc q + m ≡ suc (q + m) = omega arith in
    ap (λ n. deleted (suc q) m (deleted n 1 (x ∷ xs))) e
    ∙ ap (deleted (suc q) m) (deleted-cons (q + m) 1 x xs)
    ∙ deleted-cons q m x (deleted (q + m) 1 xs)
    ∙ ap (λ t. x ∷ t) (deleted-deleted q m xs (omega (arith, h)))
    ∙ sym (deleted-cons q (suc m) x xs)

backspaces-Shown :
    (n : ℕ) (e : Editor) (xs : List ℕ) (p : ℕ)
    → Shown e xs (p + n)
    → Shown (backspaces n e) (deleted p n xs) p
unfolding backspaces
backspaces-Shown zero e xs p h =
    subst (λ t. Shown e t p) (sym (deleted-none p xs)) (subst (Shown e xs) (omega arith) h)
backspaces-Shown (suc n) e xs p h =
    subst (λ t. Shown (backspaces n (raw_backspace e)) t p)
      (deleted-deleted p n xs (omega (arith, h.1)))
      (backspaces-Shown n (raw_backspace e) (deleted (p + n) 1 xs) p
        (raw_backspace-Shown e xs (p + n) (subst (Shown e xs) (omega arith) h)))

pub drop_beyond : (n : ℕ) (xs : List ℕ) → length xs ≤ n → drop n xs ≡ []
drop_beyond zero [] h = refl
drop_beyond zero (x ∷ xs) h = absurd (omega (arith, h))
drop_beyond (suc n) [] h = refl
drop_beyond (suc n) (x ∷ xs) h = drop_beyond n xs (omega (arith, h))

pub append_none : (xs : List ℕ) → xs ++ [] ≡ xs
append_none [] = refl
append_none (x ∷ xs) = ap (λ t. x ∷ t) (append_none xs)

deleted_rest : (p : ℕ) (xs : List ℕ) → p ≤ length xs → deleted p (length xs - p) xs ≡ take p xs
deleted_rest p xs h =
    ap (λ t. take p xs ++ t) (drop_beyond (p + (length xs - p)) xs (omega (arith, h)))
    ∙ append_none (take p xs)

-- Control-U takes out all before the cursor, and control-K all from the cursor on; the terminal
-- shows what is left, with the cursor where it belongs.
pub clear-Shown :
    (e : Editor) (xs : List ℕ) (p : ℕ)
    → Shown e xs p
    → Shown (clear_to_bol e) (drop p xs) 0 × Shown (clear_to_eol e) (take p xs) p
unfolding clear_to_bol clear_to_eol
clear-Shown e xs p h = (
  subst (λ n. Shown (backspaces n e) (drop p xs) 0) (sym h.0.1)
      (subst (λ n. Shown (backspaces p e) (drop n xs) 0) (omega arith)
        (backspaces-Shown p e xs 0 (subst (Shown e xs) (omega arith) h))),
  subst (λ n. Shown (backspaces n (cursor_end e)) (take p xs) p)
      (omega (arith, ap length h.0.0, h.0.1))
      (subst (λ t. Shown (backspaces (length xs - p) (cursor_end e)) t p) (deleted_rest p xs h.1)
        (backspaces-Shown (length xs - p) (cursor_end e) xs p
          (subst (Shown (cursor_end e) xs) (omega (arith, h.1)) at_end))),
)
  where
    at_end : Shown (cursor_end e) xs (length xs)
    at_end =
        subst (λ n. Shown (raw_cursor n e) xs (length xs)) (sym (ap length h.0.0))
          (raw_cursor-Shown (length xs) e xs p h (omega arith))

-- The line that a typed character makes: in overwrite mode the one under the cursor goes.
abbrev pub typed : Bool → ℕ → ℕ → List ℕ → List ℕ
typed overwrite p c xs =
    inserted p (c ∷ []) (if overwrite && ltb p (length xs) then deleted p 1 xs else xs)

deleted_beyond : (p : ℕ) (xs : List ℕ) → length xs ≤ p → deleted p 1 xs ≡ xs
deleted_beyond zero [] h = refl
deleted_beyond zero (x ∷ xs) h = absurd (omega (arith, h))
deleted_beyond (suc p) [] h = let e : suc p + 1 ≡ suc (p + 1) = omega arith in rw e refl
deleted_beyond (suc p) (x ∷ xs) h =
    let e : suc p + 1 ≡ suc (p + 1) = omega arith in
    rw e (ap (λ t. x ∷ t) (deleted_beyond p xs (omega (arith, h))))

-- What the overwrite mode leaves of the line is on the row up to the cursor.
overwritten-Shown :
    (c : ℕ) (e : Editor) (xs : List ℕ) (p : ℕ)
    → Shown e xs p
    → IsShown c
    → p < length xs
    → Shown
        (raw_cursor (p + 1) (cursor_end (with_line (inserted p (c ∷ []) (deleted p 1 (line e))) e)))
        (inserted p (c ∷ []) (deleted p 1 xs))
        (p + 1)
overwritten-Shown c e xs p h ok lt =
    typed-Shown c (with_line (deleted p 1 (line e)) e) (deleted p 1 xs) p (row xs)
      (ap (deleted p 1) h.0.0, h.0.1, h.0.2, h.0.3) (deleted-AreShown p xs (omega (arith, lt)) h.2)
      ok (omega (arith, long, lt)) (λ k lk. (shortened p xs k lt).0 lk)
      (λ k lk. (shortened p xs k lt).1 (omega (arith, long, lk, lt)))
  where
    long : length (deleted p 1 xs) ≡ length xs - 1
    long = length-deleted p 1 xs (omega (arith, lt))

-- The end of `type_char`, at the place `n`.
abbrev entered : ℕ → ℕ → Editor → Editor
entered c n r = raw_cursor (n + 1) (cursor_end (with_line (inserted n (c ∷ []) (line r)) r))

kept-Shown :
    (c : ℕ) (e : Editor) (xs : List ℕ) (p : ℕ)
    → Shown e xs p
    → IsShown c
    → Shown (entered c p e) (inserted p (c ∷ []) xs) (p + 1)
kept-Shown c e xs p h ok =
    typed-Shown c e xs p (row xs) h.0 h.2 ok h.1 (λ k lk. ground (arith, lk, h.1))
      (λ k lk. ground (arith, lk))

room-Shown :
    (over has_buf : Bool) (c : ℕ) (e : Editor) (xs : List ℕ) (p : ℕ)
    → Shown e xs p
    → IsShown c
    → (has_buf ≡ false → length xs ≡ 0)
    → Shown
        (entered c p (if over && has_buf then with_line (deleted p 1 (line e)) e else e))
        (typed over p c xs)
        (p + 1)
room-Shown false has_buf c e xs p h ok empty = kept-Shown c e xs p h ok
room-Shown true false c e xs p h ok empty =
    let ge : ltb p (length xs) ≡ false = ground (arith, empty refl) in
    rw ge (kept-Shown c e xs p h ok)
room-Shown true true c e xs p h ok empty = elim (Bool-cases (ltb p (length xs))) [
  | inl lt ↦ rw lt (overwritten-Shown c e xs p h ok (ground (arith, lt)))
  | inr ge ↦
      let same = deleted_beyond p xs (ground (arith, ge)) in
      rw ge (
        kept-Shown c (with_line (deleted p 1 (line e)) e) xs p
          ((ap (deleted p 1) h.0.0 ∙ same, h.0.1, h.0.2, h.0.3), h.1, h.2) ok)
]

-- A character that is typed comes in at the cursor, and in overwrite mode the one under the cursor
-- goes; the terminal shows the new line with the cursor behind the character.
pub type_char-Shown :
    (c : ℕ) (e : Editor) (xs : List ℕ) (p : ℕ)
    → Shown e xs p
    → IsShown c
    → Shown (type_char c e) (typed e.overwrite p c xs) (p + 1)
unfolding type_char
type_char-Shown c e xs p h ok =
    let has_buf : Bool = elim e.buf [ none ↦ false | some ys ↦ true ] in
    subst
      (λ n.
        Shown
          (entered c n (if e.overwrite && has_buf then with_line (deleted n 1 (line e)) e else e))
          (typed e.overwrite p c xs) (p + 1))
      (sym h.0.1) (room-Shown e.overwrite has_buf c e xs p h ok (nothing e.buf h.0.0))
  where
    nothing :
        (b : Option (List ℕ))
        → text b ≡ xs
        → elim b as (λ x. Bool) [ none ↦ false | some ys ↦ true ] ≡ false
        → length xs ≡ 0
    nothing none q f = sym (ap length q)
    nothing (some ys) q f = absurd (ground (arith, f))
