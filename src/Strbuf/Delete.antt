-- ===== src/Strbuf/Delete.antt =====
-- strbuf_delete against lists.
use cobalt_rom.Prelude.{
  ℕ, zero, suc, ◌+◌, ◌-◌, ◌≤◌, ◌<◌, ◌≡◌, refl, ◌∙◌, ap, inl, inr, true, false, ◌&&◌, Bool-cases,
  some, ltb, leb, if◌then◌else◌, List, [], ◌∷◌, ◌++◌, length, get_or, take, arith, get_or_beyond,
  length-append, get_or-append_left, get_or-append_right, get_or-take, get_or-drop, drop,
  length-take, length-drop,
}
use mathlib.Core.Path.{subst}
use cobalt_rom.Strbuf.{
  ◌>>=◌, Max, grow, fixed, upto, Strbuf, memmove, realloc, new_room, insert, delete,
}
use cobalt_rom.Strbuf.Holds.{Limited, Holds, HasRoom}
use cobalt_rom.Strbuf.Insert.{IsUnder, inserted, insert_lem, length-inserted, Holds-get}

-- The list that a deletion is to give.
abbrev pub deleted : ℕ → ℕ → List ℕ → List ℕ
deleted idx n xs = take idx xs ++ drop (idx + n) xs

pub length-deleted :
    (idx n : ℕ) (xs : List ℕ) → idx + n ≤ length xs → length (deleted idx n xs) ≡ length xs - n
length-deleted idx n xs h = omega (
  arith,
  length-append (take idx xs) (drop (idx + n) xs),
  length-take idx xs (omega (arith, h)),
  length-drop (idx + n) xs,
)

pub get_or-deleted :
    (idx n : ℕ) (xs : List ℕ) (j : ℕ)
    → idx + n ≤ length xs
    → get_or (deleted idx n xs) j 0 ≡ (if ltb j idx then get_or xs j 0 else get_or xs (j + n) 0)
get_or-deleted idx n xs j h = elim (Bool-cases (ltb j idx)) [
  | inl e ↦
      let lt : j < idx = ground (arith, e) in
      rw e (
        get_or-append_left (take idx xs) (drop (idx + n) xs) j 0 (omega (arith, lt, taken))
        ∙ get_or-take idx xs j 0 lt)
  | inr e ↦ rw e (
      get_or-append_right (take idx xs) (drop (idx + n) xs) j 0 (ground (arith, e, taken))
      ∙ get_or-drop (idx + n) xs (j - length (take idx xs)) 0
      ∙ ap (λ t. get_or xs t 0) (ground (arith, e, taken)))
]
  where
    taken : length (take idx xs) ≡ idx
    taken = length-take idx xs (omega (arith, h))

-- strbuf_delete of characters that the string has stays inside the memory and leaves the buffer
-- holding the string without them.
pub delete_lem :
    (idx n : ℕ) (xs : List ℕ) (s : Strbuf)
    → Holds s xs
    → idx < length xs
    → idx + n ≤ length xs
    → (s' : Strbuf) × (delete idx n s ≡ some s') × Holds s' (deleted idx n xs) × (s'.max ≡ s.max)
unfolding delete
delete_lem idx n xs s h lt le = (
  record s { len = s.len - n; room = new_room s.max (s.len + 1 - n) s.room; buf = after },
  run,
  ((ends, λ k lk. content k (omega (arith, lk))), nul, (room s.max h.3).0, (room s.max h.3).1),
  refl,
)
  where
    after : ℕ → ℕ
    after j =
        if leb idx j && ltb j (idx + (s.len - idx + 1 - n))
        then s.buf (idx + n + (j - idx))
        else s.buf j

    ends : s.len - n ≡ length (deleted idx n xs)
    ends = omega (arith, h.0.0, length-deleted idx n xs le)

    content : (k : ℕ) → k ≤ length (deleted idx n xs) → after k ≡ get_or (deleted idx n xs) k 0
    content k lk = elim (Bool-cases (leb idx k)) [
      | inl e ↦
          let i : idx + n + (k - idx) ≡ k + n = ground (arith, e) in
          ground (
            arith,
            e,
            ap s.buf i,
            Holds-get s xs h (k + n),
            h.0.0,
            length-deleted idx n xs le,
            lk,
            le,
            get_or-deleted idx n xs k le,
          )
      | inr e ↦ ground (arith, e, Holds-get s xs h k, get_or-deleted idx n xs k le, lt)
    ]

    nul : after (length (deleted idx n xs)) ≡ 0
    nul = content _ (omega arith) ∙ get_or_beyond (deleted idx n xs) _ 0 (omega arith)

    room :
        (m : Max)
        → Limited m s.len s.room
        → (s.len - n < new_room m (s.len + 1 - n) s.room)
          × Limited m (s.len - n) (new_room m (s.len + 1 - n) s.room)
    room grow lim = (omega (arith, h.0.0, le), tt)
    room fixed lim = (omega (arith, h.2), tt)
    room (upto m) lim = (omega (arith, h.2), (omega (arith, lim.0), lim.1))

    run :
        delete idx n s
        ≡ some (record s {
          len = s.len - n;
          room = new_room s.max (s.len + 1 - n) s.room;
          buf = after;
        })
    run =
        unfold delete memmove realloc in
        let inside : leb s.len idx ≡ false = ground (arith, h.0.0, lt) in
        let some_left : ltb (s.len - idx + 1) n ≡ false = ground (arith, h.0.0, le) in
        let to : leb (idx + (s.len - idx + 1 - n)) s.room ≡ true =
          ground (arith, h.0.0, h.2, lt, le) in
        let from : leb (idx + n + (s.len - idx + 1 - n)) s.room ≡ true =
          ground (arith, h.0.0, h.2, lt, le) in
        rw (inside, some_left, to, from) refl

drop-append : (str xs : List ℕ) → drop (length str) (str ++ xs) ≡ xs
drop-append [] xs = refl
drop-append (c ∷ cs) xs = drop-append cs xs

pub deleted-inserted :
    (idx : ℕ) (str xs : List ℕ)
    → idx ≤ length xs
    → deleted idx (length str) (inserted idx str xs) ≡ xs
deleted-inserted zero str xs h =
    let e : 0 + length str ≡ length str = omega arith in rw e (drop-append str xs)
deleted-inserted (suc idx) str [] h = absurd (omega arith)
deleted-inserted (suc idx) str (x ∷ xs) h =
    let e : suc idx + length str ≡ suc (idx + length str) = omega arith in
    rw e (ap (λ t. x ∷ t) (deleted-inserted idx str xs (omega arith)))

-- What strbuf_insert puts in within the limit, strbuf_delete takes out again: the buffer holds the
-- string that it held before.
pub delete-insert :
    (idx : ℕ) (str xs : List ℕ) (s : Strbuf)
    → Holds s xs
    → idx ≤ length xs
    → IsUnder s.max (length xs + length str)
    → HasRoom s.max (length xs + length str) s.room
    → 0 < length str
    → (s' : Strbuf) × ((insert idx str s >>= delete idx (length str)) ≡ some s') × Holds s' xs
delete-insert idx str xs s h le over has some_str =
    let put = insert_lem idx str xs s h le over has in
    let long = length-inserted idx str xs le in
    let cut =
      delete_lem idx (length str) (inserted idx str xs) (put.0) (put.2) (omega (arith, long, le))
        (omega (arith, long, le)) in
    (cut.0, rw (put.1) cut.1, subst (Holds (cut.0)) (deleted-inserted idx str xs le) cut.2)
