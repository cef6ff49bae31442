-- ===== src/Menu/Split/Words.antt =====
-- split_buffer against the words of a line.
use cobalt_rom.Prelude.{
  ℕ, zero, suc, ◌+◌, ◌≤◌, ◌<◌, ◌≡◌, refl, sym, ◌∙◌, ap, inl, inr, Bool, true, false, Bool-cases,
  some, ltb, ◌==◌, ==_iff, if◌then◌else◌, List, [], ◌∷◌, ◌++◌, length, get_or, arith, get_or_beyond,
  length-append,
}
use mathlib.Core.List.{append-nil, append_assoc}
use cobalt_rom.Printf.Scan.{c_string}
use cobalt_rom.Menu.Split.{
  isblank, isquote, BufState, st_blank, st_token, Splitter, max_args, store_nul, new_arg, at_blank,
  at_token, at_char, rounds, split_buffer,
}

-- The characters up to the next blank, inside a word, and the words after that.
unfoldable pub words_from : Bool → List ℕ → List ℕ × List (List ℕ)
words_from inside [] = ([], [])
words_from inside (c ∷ cs) =
    let next = words_from false cs in
    let rest = words_from true cs in
    if isblank c
    then ([], next.1)
    else if inside
    then (c ∷ rest.0, rest.1)
    else ([], (c ∷ rest.0) ∷ rest.1)

unfoldable pub words : List ℕ → List (List ℕ)
words xs = (words_from false xs).1

-- Neither NUL nor a quote.
abbrev pub IsPlain : List ℕ → Type 0
IsPlain [] = Unit
IsPlain (c ∷ cs) = ((c == 0) ≡ false) × (isquote c ≡ false) × IsPlain cs

-- The strings at the places of argv, in a memory of `n` bytes.
abbrev pub strings : ℕ → List ℕ → (ℕ → ℕ) → List (List ℕ)
strings n [] mem = []
strings n (a ∷ as') mem = c_string n a mem ∷ strings n as' mem

abbrev state_of : Bool → BufState
state_of true = st_token
state_of false = st_blank

c_string_stop : (m i : ℕ) (b : ℕ → ℕ) → b i ≡ 0 → c_string m i b ≡ []
unfolding c_string
c_string_stop zero i b h = refl
c_string_stop (suc m) i b h = let z : (b i == 0) ≡ true = (==_iff (b i) 0).1 h in rw z refl

c_string_step :
    (m i c : ℕ) (b : ℕ → ℕ)
    → b i ≡ c
    → (c == 0) ≡ false
    → c_string (suc m) i b ≡ c ∷ c_string m (i + 1) b
unfolding c_string
c_string_step m i c b h nz =
    let z : (b i == 0) ≡ false = ap (λ x. x == 0) h ∙ nz in
    rw z (ap (λ x. x ∷ c_string m (i + 1) b) h)

rounds-stop : (n i : ℕ) (s : Splitter) → s.mem i ≡ 0 → rounds (suc n) i s ≡ some s
unfolding rounds
rounds-stop n i s h =
    let z : (s.mem i == 0) ≡ true = (==_iff (s.mem i) 0).1 h in rw (rounds, z) refl

rounds-step :
    (n i c : ℕ) (s s1 : Splitter)
    → s.mem i ≡ c
    → (c == 0) ≡ false
    → at_char s.state i c s ≡ some s1
    → rounds (suc n) i s ≡ rounds n (i + 1) s1
unfolding rounds
rounds-step n i c s s1 h nz one =
    let z : (s.mem i == 0) ≡ false = ap (λ x. x == 0) h ∙ nz in
    let char : at_char s.state i (s.mem i) s ≡ some s1 = ap (λ x. at_char s.state i x s) h ∙ one in
    rw (rounds, z, char) refl

-- The line from place `i` on is `ys`.
abbrev Lies : (ℕ → ℕ) → ℕ → List ℕ → Type 0
Lies mem i ys = ((k : ℕ) → k < length ys → mem (i + k) ≡ get_or ys k 0) × (mem (i + length ys) ≡ 0)

Lies-tail : (mem : ℕ → ℕ) (i c : ℕ) (cs : List ℕ) → Lies mem i (c ∷ cs) → Lies mem (i + 1) cs
Lies-tail mem i c cs h =
    ((λ k lt. ap mem (omega arith) ∙ h.0 (suc k) (omega (arith, lt))), ap mem (omega arith) ∙ h.1)

Lies-store :
    (i : ℕ) (cs : List ℕ) (s : Splitter)
    → Lies s.mem (i + 1) cs
    → Lies (λ k. if k == i then 0 else s.mem k) (i + 1) cs
Lies-store i cs s h = (
  (λ k lt. let other : (i + 1 + k == i) ≡ false = ground arith in rw other (h.0 k lt)),
  (let other : (i + 1 + length cs == i) ≡ false = ground arith in rw other h.1),
)

Lies-here : (mem : ℕ → ℕ) (i c : ℕ) (cs : List ℕ) → Lies mem i (c ∷ cs) → mem i ≡ c
Lies-here mem i c cs h = ap mem (omega arith) ∙ h.0 0 (omega arith)

words_from-blank :
    (inside : Bool) (c : ℕ) (cs : List ℕ)
    → isblank c ≡ true
    → words_from inside (c ∷ cs) ≡ ([], (words_from false cs).1)
unfolding words_from
words_from-blank inside c cs e = rw e refl

words_from-inside :
    (c : ℕ) (cs : List ℕ)
    → isblank c ≡ false
    → words_from true (c ∷ cs) ≡ (c ∷ (words_from true cs).0, (words_from true cs).1)
unfolding words_from
words_from-inside c cs e = rw e refl

words_from-new :
    (c : ℕ) (cs : List ℕ)
    → isblank c ≡ false
    → words_from false (c ∷ cs) ≡ ([], (c ∷ (words_from true cs).0) ∷ (words_from true cs).1)
unfolding words_from
words_from-new c cs e = rw e refl

-- The parts of a pair of words.
abbrev head_of : List ℕ × List (List ℕ) → List ℕ
head_of w = w.0

abbrev rest_of : List ℕ × List (List ℕ) → List (List ℕ)
rest_of w = w.1

longer :
    (m i c : ℕ) (cs : List ℕ) (mem : ℕ → ℕ) (word : List ℕ)
    → mem i ≡ c
    → (c == 0) ≡ false
    → ((m' : ℕ) → length cs < m' → c_string m' (i + 1) mem ≡ word)
    → length (c ∷ cs) < m
    → c_string m i mem ≡ c ∷ word
longer zero i c cs mem word h nz rest lt = absurd (omega (arith, lt))
longer (suc m) i c cs mem word h nz rest lt =
    c_string_step m i c mem h nz ∙ ap (λ w. c ∷ w) (rest m (omega (arith, lt)))

-- What the loop makes of the rest `ys` of the line, inside a word or not.
abbrev Splits : Bool → ℕ → ℕ → List ℕ → Splitter → Type 0
Splits inside n i ys s =
    (s' : Splitter) × (new : List ℕ) × (rounds n i s ≡ some s')
    × (s'.argv ≡ s.argv ++ new)
    × ((k : ℕ) → k < i → s'.mem k ≡ s.mem k)
    × ((m : ℕ) → length ys < m → inside ≡ true → c_string m i s'.mem ≡ (words_from inside ys).0)
    × ((m : ℕ) → length ys < m → strings m new s'.mem ≡ (words_from inside ys).1)

rounds-Splits :
    (inside : Bool) (n i : ℕ) (ys : List ℕ) (s : Splitter)
    → s.state ≡ state_of inside
    → Lies s.mem i ys
    → IsPlain ys
    → length ys < n
    → length s.argv + length (words_from inside ys).1 ≤ max_args
    → Splits inside n i ys s
unfolding words_from
rounds-Splits inside zero i ys s st lies plain fuel fits = absurd (omega (arith, fuel))
rounds-Splits inside (suc n) i [] s st lies plain fuel fits = (
  s,
  [],
  rounds-stop n i s (ap s.mem (omega arith) ∙ lies.1),
  sym (append-nil s.argv),
  (λ k lt. refl),
  (λ m lt e. c_string_stop m i s.mem (ap s.mem (omega arith) ∙ lies.1)),
  λ m lt. refl,
)
rounds-Splits true (suc n) i (c ∷ cs) s st lies plain fuel fits = elim (Bool-cases (isblank c)) [
  | inl e ↦
      let parts = words_from-blank true c cs e in
      let s1 : Splitter = record s { mem = λ k. if k == i then 0 else s.mem k; state = st_blank } in
      let one : at_char s.state i c s ≡ some s1 =
        ap (λ q. at_char q i c s) st ∙ (unfold at_char at_token store_nul in rw e refl) in
      let rest =
        rounds-Splits false n (i + 1) cs s1 refl (Lies-store i cs s (Lies-tail s.mem i c cs lies))
          plain.2 (omega (arith, fuel)) (omega (arith, fits, ap (λ w. length (rest_of w)) parts)) in
      let self : (i == i) ≡ true = ground arith in
      (
        rest.0,
        rest.1,
        rounds-step n i c s s1 (Lies-here s.mem i c cs lies) plain.0 one ∙ rest.2,
        rest.3,
        (λ k lt.
            let other : (k == i) ≡ false = ground (arith, lt) in
            rest.4 k (omega (arith, lt)) ∙ rw other refl),
        (λ m lt t.
            c_string_stop m i (rest.0.mem) (rest.4 i (omega arith) ∙ rw self refl)
            ∙ sym (ap head_of parts)),
        λ m lt. rest.6 m (omega (arith, lt)) ∙ sym (ap rest_of parts),
      )
  | inr e ↦
      let parts = words_from-inside c cs e in
      let one : at_char s.state i c s ≡ some s =
        ap (λ q. at_char q i c s) st ∙ (unfold at_char at_token in rw (e, plain.1) refl) in
      let rest =
        rounds-Splits true n (i + 1) cs s st (Lies-tail s.mem i c cs lies) plain.2
          (omega (arith, fuel)) (omega (arith, fits, ap (λ w. length (rest_of w)) parts)) in
      (
        rest.0,
        rest.1,
        rounds-step n i c s s (Lies-here s.mem i c cs lies) plain.0 one ∙ rest.2,
        rest.3,
        (λ k lt. rest.4 k (omega (arith, lt))),
        (λ m lt t.
            longer m i c cs (rest.0.mem) ((words_from true cs).0)
              (rest.4 i (omega arith) ∙ Lies-here s.mem i c cs lies) plain.0
              (λ m' lt'. rest.5 m' lt' refl) lt
            ∙ sym (ap head_of parts)),
        λ m lt. rest.6 m (omega (arith, lt)) ∙ sym (ap rest_of parts),
      )
]
rounds-Splits false (suc n) i (c ∷ cs) s st lies plain fuel fits = elim (Bool-cases (isblank c)) [
  | inl e ↦
      let parts = words_from-blank false c cs e in
      let one : at_char s.state i c s ≡ some s =
        ap (λ q. at_char q i c s) st ∙ (unfold at_char at_blank in rw e refl) in
      let rest =
        rounds-Splits false n (i + 1) cs s st (Lies-tail s.mem i c cs lies) plain.2
          (omega (arith, fuel)) (omega (arith, fits, ap (λ w. length (rest_of w)) parts)) in
      (
        rest.0,
        rest.1,
        rounds-step n i c s s (Lies-here s.mem i c cs lies) plain.0 one ∙ rest.2,
        rest.3,
        (λ k lt. rest.4 k (omega (arith, lt))),
        (λ m lt t. absurd (ground (arith, t))),
        λ m lt. rest.6 m (omega (arith, lt)) ∙ sym (ap rest_of parts),
      )
  | inr e ↦
      let parts = words_from-new c cs e in
      let s1 : Splitter = record s { argv = s.argv ++ i ∷ []; state = st_token } in
      let fit : ltb (length s.argv) max_args ≡ true =
        ground (arith, fits, ap (λ w. length (rest_of w)) parts) in
      let one : at_char s.state i c s ≡ some s1 =
        ap (λ q. at_char q i c s) st
        ∙ (unfold at_char at_blank new_arg in rw (e, plain.1, fit) refl) in
      let rest =
        rounds-Splits true n (i + 1) cs s1 refl (Lies-tail s.mem i c cs lies) plain.2
          (omega (arith, fuel))
          (omega
            (arith, fits, ap (λ w. length (rest_of w)) parts, length-append s.argv (i ∷ []))) in
      (
        rest.0,
        i ∷ rest.1,
        rounds-step n i c s s1 (Lies-here s.mem i c cs lies) plain.0 one ∙ rest.2,
        rest.3 ∙ append_assoc s.argv (i ∷ []) (rest.1),
        (λ k lt. rest.4 k (omega (arith, lt))),
        (λ m lt t. absurd (ground (arith, t))),
        λ m lt.
            ap (λ x. x ∷ strings m (rest.1) (rest.0.mem))
              (longer m i c cs (rest.0.mem) ((words_from true cs).0)
                (rest.4 i (omega arith) ∙ Lies-here s.mem i c cs lies) plain.0
                (λ m' lt'. rest.5 m' lt' refl) lt)
            ∙ ap (λ x. (c ∷ (words_from true cs).0) ∷ x) (rest.6 m (omega (arith, lt)))
            ∙ sym (ap rest_of parts),
      )
]

-- The strings at the places that split_buffer puts into argv are the words of the line, if it has
-- no quotes and at most 16 words.
pub split_buffer-words :
    (xs : List ℕ)
    → IsPlain xs
    → length (words xs) ≤ max_args
    → (s : Splitter) × (split_buffer xs ≡ some s)
      × (strings (length xs + 1) s.argv s.mem ≡ words xs)
unfolding split_buffer words
split_buffer-words xs plain fits =
    let done =
      rounds-Splits false (length xs + 1) 0 xs
        (record { mem = λ k. get_or xs k 0; state = st_blank; argv = []; qchar = 0 }) refl
        (
          (λ k lt. ap (λ n. get_or xs n 0) (omega arith)),
          get_or_beyond xs (0 + length xs) 0 (omega arith),
        )
        plain (omega arith) (omega (arith, fits)) in
    (
      done.0,
      done.2,
      ap (λ a. strings (length xs + 1) a (done.0.mem)) done.3
          ∙ done.6 (length xs + 1) (omega arith),
    )
