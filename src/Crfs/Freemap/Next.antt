-- ===== src/Crfs/Freemap/Next.antt =====
-- `freemap_next` returns the lowest bit that is neither in use nor freed since the last flush.
mod Scan
use Scan.{scan-some, scan-none, scan-none_state}
pub use Scan.{Took}
use cobalt_rom.Prelude.{
  ℕ, ◌+◌, ◌-◌, ◌*◌, ◌<◌, ◌≡◌, ◌≢◌, ◌↔◌, refl, ◌∙◌, ap, List, [], ◌∷◌, if◌then◌else◌, ◌==◌, Option,
  none, some, Option-cases, inl, inr, arith,
}
use cobalt_rom.Crfs.Freemap.{Freemap, next, mark, unmark}
use cobalt_rom.Crfs.Freemap.Bit.{IsValid, used, busy, busy-mark, busy-unmark, was_freed-le}
use cobalt_rom.Crfs.Freemap.Valid.{mark-IsValid, unmark-IsValid}

-- `freemap_next` on a well formed map returns the lowest bit that is neither in use nor freed since
-- the last flush. It puts this bit into use and changes nothing else but `fm_cur`.
pub next-Took :
    (m : Freemap) (b : ℕ) (m' : Freemap) → IsValid m → next m ≡ (some b, m') → Took m b m'
next-Took m b m' v h =
    scan-some (m.mapsize - m.cur) m.cur m b m' v.map_bytes v.freed_bytes v.none_before
      (omega (arith, v.cur_in)) (unfold next in h)

pub Took-IsValid : (m : Freemap) (b : ℕ) (m' : Freemap) → IsValid m → Took m b m' → IsValid m'
Took-IsValid m b m' v t = rw t.result (record {
  map_size = marked.map_size;
  freed_size = marked.freed_size;
  map_bytes = marked.map_bytes;
  freed_bytes = marked.freed_bytes;
  cur_in = unfold mark in omega (arith, t.room);
  none_before =
      λ c hc. rw (busy-mark m b c v t.room) (rw (t.lowest c (omega arith)) (ground arith));
})
  where
    marked : IsValid (mark m b)
    marked = mark-IsValid m b v t.room

-- `freemap_next` fails on a well formed map exactly when every bit is in use or was freed since the
-- last flush.
pub next-none_iff :
    (m : Freemap) → IsValid m → ((next m).0 ≡ none) ↔ ((c : ℕ) → c < m.mapsize * 8 → busy m c ≡ 1)
next-none_iff m v = (full, none_left)
  where
    full : (next m).0 ≡ none → (c : ℕ) → c < m.mapsize * 8 → busy m c ≡ 1
    full h =
        scan-none (m.mapsize - m.cur) m.cur m v.map_bytes v.freed_bytes v.none_before
          (omega (arith, v.cur_in)) (unfold next in h)

    none_left : ((c : ℕ) → c < m.mapsize * 8 → busy m c ≡ 1) → (next m).0 ≡ none
    none_left all = elim (Option-cases (next m).0) [
      | inl e ↦ e
      | inr (b, e) ↦
          let t : Took m b (next m).1 = next-Took m b (next m).1 v (ap (λ o. (o, (next m).1)) e) in
          absurd (omega (arith, t.free, all b t.room))
    ]

-- A failing `freemap_next` on a well formed map keeps it well formed and changes nothing but
-- `fm_cur`.
pub next-none :
    (m : Freemap)
    → IsValid m
    → (next m).0 ≡ none
    → ((next m).1 ≡ record m { cur = m.mapsize }) × IsValid (next m).1
next-none m v h = (
  state,
  rw state (record {
    map_size = v.map_size;
    freed_size = v.freed_size;
    map_bytes = v.map_bytes;
    freed_bytes = v.freed_bytes;
    cur_in = omega arith;
    none_before = λ c hc. (next-none_iff m v).0 h c hc;
  }),
)
  where
    state : (next m).1 ≡ record m { cur = m.mapsize }
    state =
        unfold next in
        (scan-none_state (m.mapsize - m.cur) m.cur m v.map_bytes v.freed_bytes h
          ∙ ap (λ k. record m { cur = k }) (omega (arith, v.cur_in)))

-- `freemap_next` keeps a map well formed, whether it finds a bit or not.
pub next-IsValid : (m : Freemap) → IsValid m → IsValid (next m).1
next-IsValid m v = elim (Option-cases (next m).0) [
  | inl e ↦ (next-none m v e).1
  | inr (b, e) ↦
      Took-IsValid m b (next m).1 v (next-Took m b (next m).1 v (ap (λ o. (o, (next m).1)) e))
]

-- What `freemap_next` keeps of a well formed map, whether it finds a bit or not.
pub mapsize-next : (m : Freemap) → IsValid m → (next m).1.mapsize ≡ m.mapsize
mapsize-next m v = elim (Option-cases (next m).0) [
  | inl e ↦ ap (λ (t : Freemap). t.mapsize) (next-none m v e).0
  | inr (b, e) ↦
      ap (λ (t : Freemap). t.mapsize)
        (next-Took m b (next m).1 v (ap (λ o. (o, (next m).1)) e)).result
      ∙ unfold mark in refl
]

pub busy-next : (m : Freemap) (c : ℕ) → IsValid m → busy m c ≡ 1 → busy (next m).1 c ≡ 1
busy-next m c v h = elim (Option-cases (next m).0) [
  | inl e ↦ rw (next-none m v e).0 h
  | inr (b, e) ↦ took b (next-Took m b (next m).1 v (ap (λ o. (o, (next m).1)) e))
]
  where
    took : (b : ℕ) → Took m b (next m).1 → busy (next m).1 c ≡ 1
    took b t = rw t.result (busy-mark m b c v t.room ∙ rw h (ground arith))

-- What the callers do with a map between two flushes.
pub data Use : Type 0 where
  take_bit : Use
  mark_bit : ℕ → Use
  unmark_bit : ℕ → Use

-- A map after calls of `freemap_next`, `freemap_mark` and `freemap_unmark` in any order.
abbrev pub after : List Use → Freemap → Freemap
after [] m = m
after (take_bit ∷ us) m = after us (next m).1
after (mark_bit b ∷ us) m = after us (mark m b)
after (unmark_bit b ∷ us) m = after us (unmark m b)

-- The bits that are marked and unmarked are in range.
abbrev pub InRange : ℕ → List Use → Type 0
InRange n [] = Unit {0}
InRange n (take_bit ∷ us) = InRange n us
InRange n (mark_bit b ∷ us) = (b < n * 8) × InRange n us
InRange n (unmark_bit b ∷ us) = (b < n * 8) × InRange n us

busy-after :
    (us : List Use) (m : Freemap) (n c : ℕ)
    → IsValid m
    → m.mapsize ≡ n
    → InRange n us
    → busy m c ≡ 1
    → IsValid (after us m) × (busy (after us m) c ≡ 1)
busy-after [] m n c v size h b = (v, b)
busy-after (take_bit ∷ us) m n c v size h b =
    busy-after us (next m).1 n c (next-IsValid m v) (mapsize-next m v ∙ size) h (busy-next m c v b)
busy-after (mark_bit k ∷ us) m n c v size (lt, h) b =
    let room : k < m.mapsize * 8 = omega (arith, lt, size) in
    busy-after us (mark m k) n c (mark-IsValid m k v room) (unfold mark in size) h
      (busy-mark m k c v room ∙ rw b (ground arith))
busy-after (unmark_bit k ∷ us) m n c v size (lt, h) b =
    let room : k < m.mapsize * 8 = omega (arith, lt, size) in
    busy-after us (unmark m k) n c (unmark-IsValid m k v room) (unfold unmark in size) h
      (busy-unmark m k c v room ∙ b)

-- A bit of a well formed map that was in use and has been freed is not handed out by any
-- `freemap_next` before the next flush, whatever calls of `freemap_next`, `freemap_mark` and
-- `freemap_unmark`, on bits in range, have come in between.
pub next-unmark_ne :
    (us : List Use) (m : Freemap) (a b : ℕ) (m' : Freemap)
    → IsValid m
    → a < m.mapsize * 8
    → used m a ≡ 1
    → InRange m.mapsize us
    → next (after us (unmark m a)) ≡ (some b, m')
    → b ≢ a
next-unmark_ne us m a b m' v h u range e p =
    omega (arith, taken.free, ap (busy (after us (unmark m a))) p, kept.1)
  where
    kept : IsValid (after us (unmark m a)) × (busy (after us (unmark m a)) a ≡ 1)
    kept =
        busy-after us (unmark m a) m.mapsize a (unmark-IsValid m a v h) (unfold unmark in refl)
          range (busy-unmark m a a v h ∙ omega (arith, u, was_freed-le m a))

    taken : Took (after us (unmark m a)) b m'
    taken = next-Took (after us (unmark m a)) b m' kept.0 e
