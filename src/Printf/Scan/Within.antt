-- ===== src/Printf/Scan/Within.antt =====
-- String buffers with a limit, and the memory behind it.
use cobalt_rom.Prelude.{
  ℕ, ◌+◌, ◌≤◌, ◌<◌, ◌≡◌, refl, sym, ◌∙◌, inl, inr, true, false, Bool-cases, Option, none, some, ltb,
  ◌==◌, if◌then◌else◌, List, [], ◌∷◌, length, arith,
}
use mathlib.Core.Path.{subst}
use cobalt_rom.Strbuf.{upto, Strbuf, store, append, append_chars, realloc, takes_more, new_room}
use cobalt_rom.Strbuf.Append.{append_more, append_full}
use cobalt_rom.Printf.Scan.{◌>>=◌}

-- A buffer for `m` characters in the memory `old`: its string ends within them, and the memory
-- behind the NUL's last place is as it was.
abbrev pub IsWithin : ℕ → (ℕ → ℕ) → Strbuf → Type 0
IsWithin m old s =
    (s.max ≡ upto m)
    × (s.len ≤ m)
    × (m < s.room)
    × (s.buf s.len ≡ 0)
    × ((k : ℕ) → m < k → s.buf k ≡ old k)

abbrev pub Kept : ℕ → (ℕ → ℕ) → Option Strbuf → Type 0
Kept m old none = Unit
Kept m old (some s) = IsWithin m old s

pub Kept-bind :
    (m : ℕ) (old : ℕ → ℕ) {A : Type 0} (o : Option A) (f : A → Option Strbuf)
    → ((a : A) → Kept m old (f a))
    → Kept m old (o >>= f)
Kept-bind m old none f h = tt
Kept-bind m old (some a) f h = h a

pub Kept-then :
    (m : ℕ) (old : ℕ → ℕ) (o : Option Strbuf) (f : Strbuf → Option Strbuf)
    → Kept m old o
    → ((s : Strbuf) → IsWithin m old s → Kept m old (f s))
    → Kept m old (o >>= f)
Kept-then m old none f h k = tt
Kept-then m old (some s) f h k = k s h

-- A store at a place that the limit allows.
stored-outside :
    (m i v : ℕ) (old : ℕ → ℕ) (s : Strbuf)
    → ((k : ℕ) → m < k → s.buf k ≡ old k)
    → i ≤ m
    → (k : ℕ) → m < k
    → (if k == i then v else s.buf k) ≡ old k
stored-outside m i v old s h le k lt =
    let other : (k == i) ≡ false = ground (arith, lt, le) in rw other (h k lt)

store-IsWithin :
    (m : ℕ) (old : ℕ → ℕ) (s : Strbuf)
    → (s.max ≡ upto m) × (m < s.room) × ((k : ℕ) → m < k → s.buf k ≡ old k)
    → s.len ≤ m
    → (s' : Strbuf) × (store s.len 0 s ≡ some s') × IsWithin m old s'
unfolding store
store-IsWithin m old s h le =
    let fits : ltb s.len s.room ≡ true = ground (arith, le, h.1) in
    let self : (s.len == s.len) ≡ true = ground arith in
    (
      record s { buf = λ j. if j == s.len then 0 else s.buf j },
      rw fits refl,
      (h.0, le, h.1, rw self refl, stored-outside m s.len 0 old s h.2 le),
    )

append_chars-IsWithin :
    (str : List ℕ) (m : ℕ) (old : ℕ → ℕ) (s : Strbuf)
    → (s.max ≡ upto m) × (m < s.room) × ((k : ℕ) → m < k → s.buf k ≡ old k)
    → s.len ≤ m
    → (s' : Strbuf) × (append_chars str s ≡ some s') × IsWithin m old s'
unfolding append_chars
append_chars-IsWithin [] m old s h le = store-IsWithin m old s h le
append_chars-IsWithin (q ∷ qs) m old s h le = elim (Bool-cases (takes_more s.max s.len)) [
  | inl more ↦
      let lt : s.len < m = below (subst (λ x. takes_more x s.len ≡ true) h.0 more) in
      let rest =
        append_chars-IsWithin qs m old
          (record s { len = s.len + 1; buf = λ j. if j == s.len then q else s.buf j })
          (h.0, h.1, stored-outside m s.len q old s h.2 le) (omega (arith, lt)) in
      (rest.0, append_more s q qs more (omega (arith, lt, h.1)) ∙ rest.1, rest.2)
  | inr full ↦ let e = store-IsWithin m old s h le in (e.0, append_full s (q ∷ qs) full ∙ e.1, e.2)
]
  where
    below : takes_more (upto m) s.len ≡ true → s.len < m
    below x = unfold takes_more in ground (arith, x)

pub append-Kept :
    (str : List ℕ) (m : ℕ) (old : ℕ → ℕ) (s : Strbuf) → IsWithin m old s → Kept m old (append str s)
unfolding append realloc
append-Kept str m old s h =
    let room = s.len + length str + 1 in
    let put =
      append_chars-IsWithin str m old (record s { room = new_room s.max room s.room })
        (h.0, subst (λ x. m < new_room x room s.room) (sym h.0) h.2, h.4) h.1 in
    rw put.1 put.2
