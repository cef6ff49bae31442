-- ===== src/Strbuf/Insert.antt =====
-- strbuf_insert against lists.
use cobalt_rom.Prelude.{
  ℕ, ◌+◌, ◌-◌, ◌≤◌, ◌<◌, ◌≡◌, refl, sym, ◌∙◌, ap, inl, inr, true, false, ◌&&◌, Bool-cases, some,
  ltb, leb, ◌==◌, ==_iff, if◌then◌else◌, List, ◌++◌, length, get_or, take, arith, get_or_beyond,
  length-append, get_or-append_left, get_or-append_right, get_or-take, get_or-drop, drop,
  length-take, length-drop,
}
use mathlib.Core.Path.{subst}
use cobalt_rom.Strbuf.{
  ◌>>=◌, Max, grow, fixed, upto, Strbuf, memmove, copy_in, realloc, new_room, first_nul, is_over,
  insert,
}
use cobalt_rom.Strbuf.Holds.{Limited, Holds, HasRoom}

-- The list that an insertion is to give.
abbrev pub inserted : ℕ → List ℕ → List ℕ → List ℕ
inserted idx str xs = take idx xs ++ (str ++ drop idx xs)

pub length-inserted :
    (idx : ℕ) (str xs : List ℕ)
    → idx ≤ length xs
    → length (inserted idx str xs) ≡ length xs + length str
length-inserted idx str xs h = omega (
  arith,
  length-append (take idx xs) (str ++ drop idx xs),
  length-append str (drop idx xs),
  length-take idx xs h,
  length-drop idx xs,
)

pub get_or-inserted :
    (idx : ℕ) (str xs : List ℕ) (j : ℕ)
    → idx ≤ length xs
    → get_or (inserted idx str xs) j 0 ≡ (
        if ltb j idx
        then get_or xs j 0
        else if ltb j (idx + length str)
        then get_or str (j - idx) 0
        else get_or xs (j - length str) 0)
get_or-inserted idx str xs j h = elim (Bool-cases (ltb j idx)) [
  | inl e ↦
      let lt : j < idx = ground (arith, e) in
      rw (e) (
        get_or-append_left (take idx xs) (str ++ drop idx xs) j 0 (omega (arith, lt, taken))
        ∙ get_or-take idx xs j 0 lt)
  | inr e ↦ elim (Bool-cases (ltb j (idx + length str))) [
    | inl f ↦
        rw (e, f)
          (beyond (ground (arith, e))
            ∙ get_or-append_left str (drop idx xs) (j - idx) 0 (ground (arith, e, f)))
    | inr f ↦
        rw (e, f)
          (beyond (ground (arith, e))
            ∙ get_or-append_right str (drop idx xs) (j - idx) 0 (ground (arith, e, f))
            ∙ get_or-drop idx xs (j - idx - length str) 0
            ∙ ap (λ t. get_or xs t 0) (ground (arith, e, f)))
  ]
]
  where
    taken : length (take idx xs) ≡ idx
    taken = length-take idx xs h

    beyond : idx ≤ j → get_or (inserted idx str xs) j 0 ≡ get_or (str ++ drop idx xs) (j - idx) 0
    beyond le =
        get_or-append_right (take idx xs) (str ++ drop idx xs) j 0 (omega (arith, le, taken))
        ∙ ap (λ t. get_or (str ++ drop idx xs) (j - t) 0) taken

room_enough :
    (m : Max) (len n room : ℕ)
    → is_over m (len + n) ≡ false
    → Limited m len room
    → HasRoom m (len + n) room
    → (len + n < new_room m (len + 1 + n) room)
      × Limited m (len + n) (new_room m (len + 1 + n) room)
unfolding is_over
room_enough grow len n room over lim has = (omega arith, tt)
room_enough fixed len n room over lim has = (has, tt)
room_enough (upto m) len n room over lim has =
    (ground (arith, over, lim), (ground (arith, over), lim.1))

-- The memory after the two moves.
abbrev moved : ℕ → ℕ → List ℕ → (ℕ → ℕ) → ℕ → ℕ
moved idx n str b j =
    if leb idx j && ltb j (idx + length str)
    then get_or str (j - idx) 0
    else if leb (idx + length str) j && ltb j (idx + length str + n)
    then b (idx + (j - (idx + length str)))
    else b j

-- What is in that memory up to the end of the bytes that moved.
moved_lem :
    (idx n : ℕ) (str xs : List ℕ) (b : ℕ → ℕ) (j : ℕ)
    → idx ≤ length xs
    → idx + n ≤ length xs + 1
    → ((k : ℕ) → k ≤ length xs → b k ≡ get_or xs k 0)
    → j < idx + length str + n
    → moved idx n str b j ≡ get_or (inserted idx str xs) j 0
moved_lem idx n str xs b j le fits agree lt =
    elim (Bool-cases (ltb j (idx + length str))) [
      | inl e ↦ ground (arith, agree j, e, le)
      | inr e ↦
          let i : idx + (j - (idx + length str)) ≡ j - length str = ground (arith, e) in
          ground (arith, e, ap b i, agree (j - length str), lt, fits)
    ]
    ∙ sym (get_or-inserted idx str xs j le)

-- The NUL counts as the character after the last one.
pub Holds-get :
    (s : Strbuf) (xs : List ℕ) → Holds s xs → (k : ℕ) → k ≤ length xs → s.buf k ≡ get_or xs k 0
Holds-get s xs h k le = elim (Bool-cases (k == length xs)) [
  | inl e ↦
      let p : k ≡ length xs = (==_iff k (length xs)).0 e in
      rw (p, get_or_beyond xs (length xs) 0 (omega arith)) (h.1)
  | inr e ↦ h.0.1 k (ground (arith, e, le))
]

moves :
    (idx n : ℕ) (str : List ℕ) (g : Strbuf)
    → idx + length str + n ≤ g.room
    → (memmove (idx + length str) idx n g >>= copy_in idx str)
      ≡ some (record g { buf = moved idx n str g.buf })
unfolding memmove copy_in
moves idx n str g fits = rw (to, from, copied) refl
  where
    to : leb (idx + length str + n) g.room ≡ true
    to = ground (arith, fits)

    from : leb (idx + n) g.room ≡ true
    from = ground (arith, fits)

    copied : leb (idx + length str) g.room ≡ true
    copied = ground (arith, fits)

first_nul-memory : (s g : Strbuf) → 0 < s.room → first_nul s g ≡ g
unfolding first_nul
first_nul-memory s g h = let e : (s.room == 0) ≡ false = ground (arith, h) in rw e refl

-- A string of `n` characters is within the limit.
abbrev pub IsUnder : Max → ℕ → Type 0
IsUnder grow n = Unit {0}
IsUnder fixed n = Unit {0}
IsUnder (upto m) n = n ≤ m

IsUnder-is_over : (m : Max) (n : ℕ) → IsUnder m n → is_over m n ≡ false
unfolding is_over
IsUnder-is_over grow n h = refl
IsUnder-is_over fixed n h = refl
IsUnder-is_over (upto m) n h = ground (arith, h)

-- strbuf_insert into a buffer that holds `xs`, at an index in or at the end of the string and within
-- the limit, stays inside the memory and leaves the buffer holding `xs` with `str` put in at that
-- index.
pub insert_lem :
    (idx : ℕ) (str xs : List ℕ) (s : Strbuf)
    → Holds s xs
    → idx ≤ length xs
    → IsUnder s.max (length xs + length str)
    → HasRoom s.max (length xs + length str) s.room
    → (s' : Strbuf) × (insert idx str s ≡ some s')
      × Holds s' (inserted idx str xs)
      × (s'.max ≡ s.max)
unfolding insert
insert_lem idx str xs s h le limit has = (
  record s {
    len = s.len + length str;
    room = new_room s.max (s.len + 1 + length str) s.room;
    buf = moved idx (s.len - idx + 1) str s.buf;
  },
  run,
  (
    (
      ends,
      λ k lt.
          moved_lem idx (s.len - idx + 1) str xs s.buf k le (omega (arith, h.0.0, le))
            (Holds-get s xs h) (inside k (omega (arith, lt))),
    ),
    nul,
    room.0,
    room.1,
  ),
  refl,
)
  where
    over : is_over s.max (length xs + length str) ≡ false
    over = IsUnder-is_over s.max (length xs + length str) limit

    room :
        (s.len + length str < new_room s.max (s.len + 1 + length str) s.room)
        × Limited s.max (s.len + length str) (new_room s.max (s.len + 1 + length str) s.room)
    room =
        room_enough s.max s.len (length str) s.room
          (ap (λ n. is_over s.max (n + length str)) h.0.0 ∙ over) (h.3)
          (subst (λ n. HasRoom s.max (n + length str) s.room) (sym h.0.0) has)

    ends : s.len + length str ≡ length (inserted idx str xs)
    ends = omega (arith, h.0.0, length-inserted idx str xs le)

    inside : (k : ℕ) → k ≤ length (inserted idx str xs) → k < idx + length str + (s.len - idx + 1)
    inside k lt = omega (arith, h.0.0, length-inserted idx str xs le, le, lt)

    nul : moved idx (s.len - idx + 1) str s.buf (length (inserted idx str xs)) ≡ 0
    nul =
        moved_lem idx (s.len - idx + 1) str xs s.buf (length (inserted idx str xs)) le
          (omega (arith, h.0.0, le)) (Holds-get s xs h) (inside _ (omega arith))
        ∙ get_or_beyond (inserted idx str xs) _ 0 (omega arith)

    run :
        insert idx str s
        ≡ some (record s {
          len = s.len + length str;
          room = new_room s.max (s.len + 1 + length str) s.room;
          buf = moved idx (s.len - idx + 1) str s.buf;
        })
    run =
        unfold insert realloc in
        let inside : ltb s.len idx ≡ false = ground (arith, h.0.0, le) in
        let under : is_over s.max (s.len + length str) ≡ false =
          ap (λ n. is_over s.max (n + length str)) h.0.0 ∙ over in
        let opened = first_nul-memory s (realloc (s.len + 1 + length str) s) (omega (arith, h.2)) in
        rw (inside, under, opened)
          (moves idx (s.len - idx + 1) str _ (omega (arith, h.0.0, le, room.0)))

over-new_room : (m : Max) (total n room : ℕ) → is_over m total ≡ true → new_room m n room ≡ room
unfolding is_over
over-new_room grow total n room h = absurd (ground (arith, h))
over-new_room fixed total n room h = absurd (ground (arith, h))
over-new_room (upto m) total n room h = refl

-- When the characters would go past the limit but end inside the string, strbuf_insert drops
-- characters from the end: the buffer holds as many characters as before, also where the limit
-- leaves room for more.
pub insert_over :
    (idx : ℕ) (str xs : List ℕ) (s : Strbuf)
    → Holds s xs
    → idx + length str ≤ length xs
    → is_over s.max (length xs + length str) ≡ true
    → (s' : Strbuf) × (insert idx str s ≡ some s')
      × Holds s' (take (length xs) (inserted idx str xs))
      × (s'.max ≡ s.max)
unfolding insert
insert_over idx str xs s h le over = (
  record s { buf = moved idx (s.len - idx - length str) str s.buf },
  run,
  ((omega (arith, h.0.0, taken), content), nul, h.2, h.3),
  refl,
)
  where
    n : ℕ
    n = s.len - idx - length str

    stays : is_over s.max (s.len + length str) ≡ true
    stays = ap (λ t. is_over s.max (t + length str)) h.0.0 ∙ over

    taken : length (take (length xs) (inserted idx str xs)) ≡ length xs
    taken =
        length-take (length xs) (inserted idx str xs)
          (omega (arith, length-inserted idx str xs (omega (arith, le))))

    content :
        (k : ℕ)
        → k < length (take (length xs) (inserted idx str xs))
        → moved idx n str s.buf k ≡ get_or (take (length xs) (inserted idx str xs)) k 0
    content k lt =
        moved_lem idx n str xs s.buf k (omega (arith, le)) (omega (arith, h.0.0, le))
          (Holds-get s xs h) (omega (arith, h.0.0, le, lt, taken))
        ∙ sym (get_or-take (length xs) (inserted idx str xs) k 0 (omega (arith, lt, taken)))

    nul : moved idx n str s.buf (length (take (length xs) (inserted idx str xs))) ≡ 0
    nul = rw taken (
        let past : (leb idx (length xs) && ltb (length xs) (idx + length str)) ≡ false =
          ground (arith, le) in
        let end : (leb (idx + length str) (length xs) && ltb (length xs) (idx + length str + n))
            ≡ false =
          ground (arith, le, h.0.0) in
        rw (past, end) (h.1))

    run : insert idx str s ≡ some (record s { buf = moved idx n str s.buf })
    run =
        unfold insert realloc in
        let inside : ltb s.len idx ≡ false = ground (arith, h.0.0, le) in
        let opened = first_nul-memory s (realloc (s.len + 1 + length str) s) (omega (arith, h.2)) in
        rw (inside, stays, opened, over-new_room s.max _ (s.len + 1 + length str) s.room stays)
          (moves idx n str s (omega (arith, h.0.0, le, h.2)))
