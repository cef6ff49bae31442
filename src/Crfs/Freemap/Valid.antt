-- ===== src/Crfs/Freemap/Valid.antt =====
-- Every routine on a freemap keeps it well formed.
use native.Mathlib.Nat.{le_refl}
use mathlib.Core.Path.{ap₂}
use cobalt_rom.Prelude.{
  ℕ, ◌-◌, ◌*◌, ◌/◌, ◌%◌, ◌^◌, ◌≤◌, ◌<◌, bit_and, bit_or, ◌≡◌, refl, List, length, get_or, set,
  length-set, length-replicate, get_or-replicate, get_or-set_self, get_or-set_ne, get_or_beyond,
  set_beyond, ◌==◌, Bool-cases, inl, inr, ==_iff, ==_false_iff, ltb, arith,
}
use cobalt_rom.Prelude.Bits.{bit_or-lt, bit_and-le, two-pow-lt-byte}
use cobalt_rom.Crfs.Freemap.{Freemap, init, flush, mark, unmark}
use cobalt_rom.Crfs.Freemap.Bit.{IsValid, busy, busy-mark, busy-unmark}

abbrev AllBytes : List ℕ → Type 0
AllBytes xs = (i : ℕ) → get_or xs i 0 < 256

AllBytes-set : (xs : List ℕ) (k v : ℕ) → AllBytes xs → v < 256 → AllBytes (set xs k v)
AllBytes-set xs k v h hv i = elim (Bool-cases (k == i)) [
  | inr e ↦ rw (get_or-set_ne xs k i v 0 ((==_false_iff k i).0 e)) (h i)
  | inl e ↦ rw (← (==_iff k i).0 e) (elim (Bool-cases (ltb k (length xs))) [
    | inl p ↦ rw (get_or-set_self xs k v 0 (ground arith)) hv
    | inr p ↦ rw (get_or_beyond (set xs k v) k 0 (rw length-set (ground arith))) (omega arith)
  ])
]

pub init-IsValid : (n : ℕ) → IsValid (init n)
unfolding init
init-IsValid n = record {
  map_size = length-replicate n 0;
  freed_size = length-replicate n 0;
  map_bytes = λ i. rw (get_or-replicate {A = ℕ} n i 0) (omega arith);
  freed_bytes = λ i. rw (get_or-replicate {A = ℕ} n i 0) (omega arith);
  cur_in = omega arith;
  none_before = λ b h. absurd (omega arith);
}

-- `freemap_flush` keeps a freemap well formed.
pub flush-IsValid : (m : Freemap) → IsValid m → IsValid (flush m)
unfolding flush
flush-IsValid m v = record {
  map_size = v.map_size;
  freed_size = length-replicate m.mapsize 0;
  map_bytes = v.map_bytes;
  freed_bytes = λ i. rw (get_or-replicate {A = ℕ} m.mapsize i 0) (omega arith);
  cur_in = omega arith;
  none_before = λ b h. absurd (omega arith);
}

-- `freemap_mark` keeps a freemap well formed, for a bit in range.
pub mark-IsValid : (m : Freemap) (a : ℕ) → IsValid m → a < m.mapsize * 8 → IsValid (mark m a)
mark-IsValid m a v h = record {
  map_size = unfold mark in rw length-set v.map_size;
  freed_size = unfold mark in v.freed_size;
  map_bytes =
      unfold mark in
      AllBytes-set m.map (a / 8) (bit_or (get_or m.map (a / 8) 0) (2 ^ (a % 8))) v.map_bytes
        (bit_or-lt 8 _ _ (v.map_bytes (a / 8)) (two-pow-lt-byte (a % 8) (omega arith)));
  freed_bytes = unfold mark in v.freed_bytes;
  cur_in = unfold mark in v.cur_in;
  none_before = λ b hb.
      let k : busy m b ≡ 1 = v.none_before b (unfold mark in hb) in
      rw (busy-mark m a b v h) (rw k (ground arith));
}

-- `freemap_unmark` keeps a freemap well formed, for a bit in range.
pub unmark-IsValid : (m : Freemap) (a : ℕ) → IsValid m → a < m.mapsize * 8 → IsValid (unmark m a)
unmark-IsValid m a v h = record {
  map_size = unfold unmark in rw length-set v.map_size;
  freed_size = unfold unmark in rw length-set v.freed_size;
  map_bytes =
      unfold unmark in
      AllBytes-set m.map (a / 8) (bit_and (get_or m.map (a / 8) 0) (255 - 2 ^ (a % 8))) v.map_bytes
        (omega (
          arith,
          v.map_bytes (a / 8),
          bit_and-le _ (get_or m.map (a / 8) 0) (255 - 2 ^ (a % 8)) (le_refl _),
        ));
  freed_bytes =
      unfold unmark in
      AllBytes-set m.freed (a / 8)
        (bit_or (get_or m.freed (a / 8) 0) (bit_and (get_or m.map (a / 8) 0) (2 ^ (a % 8))))
        v.freed_bytes
        (bit_or-lt 8 _ _ (v.freed_bytes (a / 8)) (
          omega (
            arith,
            v.map_bytes (a / 8),
            bit_and-le _ (get_or m.map (a / 8) 0) (2 ^ (a % 8)) (le_refl _),
          )));
  cur_in = unfold unmark in v.cur_in;
  none_before = λ b hb. rw (busy-unmark m a b v h) (v.none_before b (unfold unmark in hb));
}

-- In this model, what lies past the end of a map is neither read nor written.
unmark_beyond : (m : Freemap) (a : ℕ) → IsValid m → m.mapsize * 8 ≤ a → unmark m a ≡ m
unfolding unmark
unmark_beyond m a v h =
    ap₂ (λ f s. record m { freed = f; map = s })
      (set_beyond m.freed (a / 8) _ (omega (arith, v.freed_size)))
      (set_beyond m.map (a / 8) _ (omega (arith, v.map_size)))

pub unmark-IsValid_any : (m : Freemap) (a : ℕ) → IsValid m → IsValid (unmark m a)
unmark-IsValid_any m a v = elim (Bool-cases (ltb a (m.mapsize * 8))) [
  | inl h ↦ unmark-IsValid m a v (ground arith)
  | inr h ↦ rw (unmark_beyond m a v (ground arith)) v
]

pub busy-unmark_any : (m : Freemap) (a b : ℕ) → IsValid m → busy (unmark m a) b ≡ busy m b
busy-unmark_any m a b v = elim (Bool-cases (ltb a (m.mapsize * 8))) [
  | inl h ↦ busy-unmark m a b v (ground arith)
  | inr h ↦ rw (unmark_beyond m a v (ground arith)) refl
]
