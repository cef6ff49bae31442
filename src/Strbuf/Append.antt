-- ===== src/Strbuf/Append.antt =====
-- strbuf_append against the concatenation of lists.
use cobalt_rom.Prelude.{
  ℕ, suc, ◌+◌, ◌-◌, ◌≤◌, ◌<◌, ◌≡◌, refl, sym, ap, inl, inr, true, false, Bool-cases, Option, some,
  ltb, ◌==◌, if◌then◌else◌, List, [], ◌∷◌, ◌++◌, length, get_or, take, arith, take-nil,
  length-append, get_or-append_left, get_or-append_right,
}
use mathlib.Core.Path.{subst}
use mathlib.Core.List.{append-nil, append_assoc}
use cobalt_rom.Strbuf.{
  new_room, Max, grow, fixed, upto, Strbuf, store, realloc, takes_more, append_chars, append,
}
use cobalt_rom.Strbuf.Holds.{Starts, Limited, Holds, HasRoom}

-- The characters of `str` that a buffer of length `len` takes.
abbrev pub accepted : Max → ℕ → List ℕ → List ℕ
accepted grow len str = str
accepted fixed len str = str
accepted (upto m) len str = take (m - len) str

-- The room that the loop needs for the characters.
abbrev Fits : Max → ℕ → ℕ → ℕ → Type 0
Fits grow len n room = len + n < room
Fits fixed len n room = len + n < room
Fits (upto m) len n room = (len ≤ m) × (m < room)

-- One character put at the end.
Starts-put :
    (s : Strbuf) (xs : List ℕ) (c : ℕ)
    → Starts s xs
    → Starts
        (record s { len = s.len + 1; buf = λ j. if j == s.len then c else s.buf j })
        (xs ++ c ∷ [])
Starts-put s xs c h = (omega (arith, length-append xs (c ∷ []), h.0), agrees)
  where
    agrees :
        (k : ℕ)
        → k < length (xs ++ c ∷ [])
        → (if k == s.len then c else s.buf k) ≡ get_or (xs ++ c ∷ []) k 0
    agrees k lt = elim (Bool-cases (k == s.len)) [
      | inl e ↦
          let p : k ≡ length xs = ground (arith, e, h.0) in
          rw (e, get_or-append_right xs (c ∷ []) k 0 (omega (arith, p)), p) last
      | inr e ↦
          let q : k < length xs = ground (arith, e, h.0, lt, length-append xs (c ∷ [])) in
          rw (e, get_or-append_left xs (c ∷ []) k 0 q) (h.1 k q)
    ]
      where
        last : c ≡ get_or (c ∷ []) (length xs - length xs) 0
        last = let z : length xs - length xs ≡ 0 = omega arith in rw z refl

-- The NUL that ends the loop.
ends :
    (s : Strbuf) (xs : List ℕ)
    → Starts s xs
    → s.len < s.room
    → Limited s.max s.len s.room
    → (s' : Strbuf) × (store s.len 0 s ≡ some s') × Holds s' xs × (s'.max ≡ s.max)
unfolding store
ends s xs h lt lim = (
  record s { buf = λ j. if j == s.len then 0 else s.buf j },
  rw fits refl,
  ((h.0, λ k lk. ground (arith, h.0, h.1 k lk, lk)), ground (arith, h.0), lt, lim),
  refl,
)
  where
    fits : ltb s.len s.room ≡ true
    fits = ground (arith, lt)

-- What the loop does from a buffer that stands for `xs`.
abbrev Result : Option Strbuf → Max → List ℕ → Type 0
Result o m xs = (s' : Strbuf) × (o ≡ some s') × Holds s' xs × (s'.max ≡ m)

accepted-nil : (m : Max) (len : ℕ) → accepted m len [] ≡ []
accepted-nil grow len = refl
accepted-nil fixed len = refl
accepted-nil (upto m) len = take-nil (m - len)

accepted_more :
    (m : Max) (len q : ℕ) (qs : List ℕ)
    → takes_more m len ≡ true
    → accepted m len (q ∷ qs) ≡ q ∷ accepted m (len + 1) qs
unfolding takes_more
accepted_more grow len q qs h = refl
accepted_more fixed len q qs h = refl
accepted_more (upto m) len q qs h =
    let e : m - len ≡ suc (m - (len + 1)) = ground (arith, h) in rw e refl

accepted_full :
    (m : Max) (len : ℕ) (str : List ℕ) → takes_more m len ≡ false → accepted m len str ≡ []
unfolding takes_more
accepted_full grow len str h = absurd (ground (arith, h))
accepted_full fixed len str h = absurd (ground (arith, h))
accepted_full (upto m) len str h = let e : m - len ≡ 0 = ground (arith, h) in rw e refl

takes_more-Fits :
    (m : Max) (len n room : ℕ)
    → takes_more m len ≡ true
    → Fits m len (suc n) room
    → (len < room) × Fits m (len + 1) n room
unfolding takes_more
takes_more-Fits grow len n room h fit = (omega arith, omega arith)
takes_more-Fits fixed len n room h fit = (omega arith, omega arith)
takes_more-Fits (upto m) len n room h fit = (ground (arith, h, fit), (ground (arith, h), fit.1))

Fits-Limited : (m : Max) (len n room : ℕ) → Fits m len n room → (len < room) × Limited m len room
Fits-Limited grow len n room fit = (omega arith, tt)
Fits-Limited fixed len n room fit = (omega arith, tt)
Fits-Limited (upto m) len n room fit = (omega (arith, fit.0, fit.1), fit)

new_room-Fits :
    (m : Max) (len n room : ℕ)
    → Limited m len room
    → HasRoom m (len + n) room
    → Fits m len n (new_room m (len + n + 1) room)
new_room-Fits grow len n room h has = omega arith
new_room-Fits fixed len n room h has = has
new_room-Fits (upto m) len n room h has = h

pub append_more :
    (s : Strbuf) (q : ℕ) (qs : List ℕ)
    → takes_more s.max s.len ≡ true
    → s.len < s.room
    → append_chars (q ∷ qs) s
      ≡ append_chars qs (record s { len = s.len + 1; buf = λ j. if j == s.len then q else s.buf j })
unfolding append_chars store
append_more s q qs more lt =
    let fits : ltb s.len s.room ≡ true = ground (arith, lt) in rw (append_chars, more, fits) refl

pub append_full :
    (s : Strbuf) (str : List ℕ)
    → takes_more s.max s.len ≡ false
    → append_chars str s ≡ store s.len 0 s
unfolding append_chars
append_full s [] h = refl
append_full s (q ∷ qs) h = rw (append_chars, h) refl

stops :
    (s : Strbuf) (xs : List ℕ) (n : ℕ)
    → Starts s xs
    → Fits s.max s.len n s.room
    → Result (store s.len 0 s) s.max (xs ++ [])
stops s xs n h fit = subst (Result (store s.len 0 s) s.max) (sym (append-nil xs)) (
    ends s xs h ((Fits-Limited s.max s.len n s.room fit).0)
      ((Fits-Limited s.max s.len n s.room fit).1))

append_chars_lem :
    (str xs : List ℕ) (s : Strbuf)
    → Starts s xs
    → Fits s.max s.len (length str) s.room
    → Result (append_chars str s) s.max (xs ++ accepted s.max s.len str)
unfolding append_chars
append_chars_lem [] xs s h fit = rw (accepted-nil s.max s.len) (stops s xs 0 h fit)
append_chars_lem (q ∷ qs) xs s h fit = elim (Bool-cases (takes_more s.max s.len)) [
  | inl more ↦
      let next = takes_more-Fits s.max s.len (length qs) s.room more fit in
      rw
        (
          append_more s q qs more next.0,
          accepted_more s.max s.len q qs more,
          sym (append_assoc xs (q ∷ []) (accepted s.max (s.len + 1) qs)),
        )
        (append_chars_lem qs (xs ++ q ∷ [])
          (record s { len = s.len + 1; buf = λ j. if j == s.len then q else s.buf j })
          (Starts-put s xs q h) next.1)
  | inr full ↦
      rw (append_full s (q ∷ qs) full, accepted_full s.max s.len (q ∷ qs) full)
        (stops s xs (suc (length qs)) h fit)
]

-- strbuf_append to a buffer that holds `xs` stays inside the memory of the buffer and leaves it
-- holding `xs` and the characters of `str` after it: all of them, or as many as the limit allows. A
-- fixed buffer needs the room for all.
pub append_lem :
    (str xs : List ℕ) (s : Strbuf)
    → Holds s xs
    → HasRoom s.max (length xs + length str) s.room
    → (s' : Strbuf) × (append str s ≡ some s')
      × Holds s' (xs ++ accepted s.max (length xs) str)
      × (s'.max ≡ s.max)
append_lem str xs s h room =
    subst
      (λ n.
        (s' : Strbuf) × (append str s ≡ some s')
        × Holds s' (xs ++ accepted s.max n str)
        × (s'.max ≡ s.max))
      (h.0.0)
      (unfold append realloc in
        append_chars_lem str xs (realloc (s.len + length str + 1) s) h.0 fits)
  where
    fits : Fits s.max s.len (length str) (new_room s.max (s.len + length str + 1) s.room)
    fits =
        new_room-Fits s.max s.len (length str) s.room (h.3)
          (subst (λ n. HasRoom s.max (n + length str) s.room) (sym h.0.0) room)

-- The first strbuf_append to a buffer that grows and has no memory yet, as printf has it.
pub append-no_memory :
    (str : List ℕ) (s : Strbuf)
    → s.max ≡ grow
    → s.len ≡ 0
    → (s' : Strbuf) × (append str s ≡ some s') × Holds s' str × (s'.max ≡ s.max)
append-no_memory str s growing empty =
    subst (λ t. Result (append str s) s.max t) (ap (λ m. accepted m s.len str) growing)
      (unfold append realloc in
        append_chars_lem str [] (realloc (s.len + length str + 1) s)
          (empty, λ k lt. absurd (omega (arith, lt))) fits)
  where
    fits : Fits s.max s.len (length str) (new_room s.max (s.len + length str + 1) s.room)
    fits =
        subst (λ m. Fits m s.len (length str) (new_room m (s.len + length str + 1) s.room))
          (sym growing) (omega arith)
