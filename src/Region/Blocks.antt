-- ===== src/Region/Blocks.antt =====
-- What `region_allocate` hands out, and the list of regions after `region_init` and
-- `region_allocate`.
use cobalt_rom.Prelude.{
  ℕ, ◌+◌, ◌-◌, ◌%◌, ◌^◌, ◌≤◌, ◌<◌, bit_or, ◌≡◌, refl, ◌∙◌, ap, none, some, List, [], ◌∷◌, ◌==◌,
  ==_iff, Bool-cases, inl, inr, if◌then◌else◌, arith,
}
use cobalt_rom.Prelude.Bits.{bit_and-le}
use cobalt_rom.Region.{Region, find, init, clear_bits, take_block, roundup2, update, allocate}
use cobalt_rom.Region.Rounding.{roundup2_lem}

-- `region_init` adds a region with the given base and no bytes handed out, if its number is new,
-- and changes the search for no other number.
pub find-init :
    (id align base j : ℕ) (name : List ℕ) (rs : List Region)
    → find id rs ≡ none
    → find j (init id align base name rs) ≡ (
        if id == j
        then some
            (record { id = id; mask = align; limit = base; base = base; size = 0; name = name })
        else find j rs)
unfolding find init
find-init id align base j name [] new = refl
find-init id align base j name (r ∷ rs) new = ground (arith, find-init id align base j name rs, new)

-- An update that keeps the region's number changes what is found for this number alone.
find-update :
    (id j : ℕ) (f : Region → Region) (rs : List Region) (r : Region)
    → ((x : Region) → (f x).id ≡ x.id)
    → find id rs ≡ some r
    → find j (update id f rs) ≡ (if id == j then some (f r) else find j rs)
unfolding find update
find-update id j f [] r keep e = ground (arith, e)
find-update id j f (x ∷ xs) r keep e = elim (Bool-cases (x.id == id)) [
  | inl h ↦
      let same : x ≡ r = ground (arith, h, e) in
      rw h (chosen (f x) (keep x ∙ (==_iff x.id id).0 h) ((==_iff x.id id).0 h) (ap f same))
  | inr h ↦
      let tail : find id xs ≡ some r = ground (arith, h, e) in
      rw h (ground (arith, h, find-update id j f xs r keep tail))
]
  where
    chosen :
        (y : Region)
        → y.id ≡ id
        → x.id ≡ id
        → y ≡ f r
        → (if y.id == j then some y else find j xs)
          ≡ (if id == j then some (f r) else (if x.id == j then some x else find j xs))
    chosen y p q s = rw (p, q) (ground (arith, s))

taken :
    (n : ℕ) (r : Region)
    → n ≤ clear_bits r.base (bit_or (n - 1) r.mask)
    → r.base < 2 ^ 32
    → (take_block n r).base + n ≤ r.base
unfolding take_block
taken n r room small =
    go (clear_bits r.base (bit_or (n - 1) r.mask)) room (bit_and-le r.base r.base _ (omega arith))
  where
    go : (v : ℕ) → n ≤ v → v ≤ r.base → (v + 2 ^ 32 - n) % 2 ^ 32 + n ≤ r.base
    go v h k = omega (arith, h, k, small)

-- A block of 1 to 2 ^ 31 bytes that `region_allocate` hands out, of the size rounded up to a power
-- of two, lies below all that was handed out before, if there is room for it under the aligned
-- base: from the result on at least `size` bytes end at or under the old base. The region is left
-- with the result as its base, and the other regions as they were.
pub allocate_lem :
    (id size : ℕ) (rs : List Region) (r : Region)
    → find id rs ≡ some r
    → 0 < size
    → size ≤ 2 ^ 31
    → r.base < 2 ^ 32
    → roundup2 size ≤ clear_bits r.base (bit_or (roundup2 size - 1) r.mask)
    → ((allocate id size rs).0 + size ≤ r.base)
      × ((j : ℕ)
          → find j (allocate id size rs).1
            ≡ (if id == j then some (take_block (roundup2 size) r) else find j rs))
      × ((take_block (roundup2 size) r).base ≡ (allocate id size rs).0)
unfolding allocate
allocate_lem id size rs r e pos fits small room = elim (Bool-cases (size == 0)) [
  | inl z ↦ absurd (ground (arith, z, pos))
  | inr z ↦
      rw (e, z, allocate)
        (
          omega (arith, taken (roundup2 size) r room small, (roundup2_lem size pos fits).2),
          λ j.
              find-update id j (take_block (roundup2 size)) rs r (λ x. unfold take_block in refl) e,
          refl,
        )
]
