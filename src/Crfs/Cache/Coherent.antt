-- ===== src/Crfs/Cache/Coherent.antt =====
-- The invariant of the cache: one entry for a block, and a clean entry holds what the backing store
-- holds.
use cobalt_rom.Prelude.{
  ℕ, ◌≡◌, refl, ◌∙◌, ap, Bool, true, false, none, some, List, [], ◌∷◌, ◌==◌, ==_iff, Bool-cases,
  Option-cases, inl, inr, arith,
}
use cobalt_rom.Crfs.Layout.{Block}
use cobalt_rom.Crfs.State.{Datum, Fs}
use cobalt_rom.Crfs.Cache.{find, cache_add, overwrite, read_block, write_block}
use cobalt_rom.Crfs.Cache.View.{find-overwrite}

-- No two entries are for one block.
abbrev pub Unique : List Datum → Type 0
Unique [] = Unit {0}
Unique (d ∷ ds) = (find d.dt_blockaddr ds ≡ none) × Unique ds

pub record IsCoherent (s : Fs) : Type 0 where
  pub unique : Unique s.cache
  pub clean :
      (idx : ℕ) (d : Datum)
      → find idx s.cache ≡ some d
      → d.dt_dirty ≡ false
      → d.dt_data ≡ s.disk idx

find-overwrite-none :
    (idx j : ℕ) (b : Block) (ds : List Datum)
    → find j ds ≡ none
    → find j (overwrite idx b ds) ≡ none
unfolding find overwrite
find-overwrite-none idx j b [] h = refl
find-overwrite-none idx j b (d ∷ ds) h = ground (arith, find-overwrite-none idx j b ds)

Unique-overwrite : (idx : ℕ) (b : Block) (ds : List Datum) → Unique ds → Unique (overwrite idx b ds)
unfolding overwrite
Unique-overwrite idx b [] u = tt
Unique-overwrite idx b (d ∷ ds) u = elim (Bool-cases (d.dt_blockaddr == idx)) [
  | inl e ↦ rw e u
  | inr e ↦ rw e (find-overwrite-none idx d.dt_blockaddr b ds u.0, Unique-overwrite idx b ds u.1)
]

cache_add-IsCoherent :
    (idx : ℕ) (b : Block) (dirty : Bool) (s : Fs)
    → find idx s.cache ≡ none
    → (dirty ≡ false → b ≡ s.disk idx)
    → IsCoherent s
    → IsCoherent (cache_add idx b dirty s)
unfolding cache_add
cache_add-IsCoherent idx b dirty s new same c = record {
  unique = (new, c.unique);
  clean = λ j d h clean. elim (Bool-cases (idx == j)) [
    | inl e ↦
        let h' : record { dt_blockaddr = idx; dt_dirty = dirty; dt_data = b } ≡ d =
          unfold find in ground (arith, h, e) in
        rw (← h', ← (==_iff idx j).0 e) (same (ap (λ (t : Datum). t.dt_dirty) h' ∙ clean))
    | inr e ↦ c.clean j d (unfold find in ground (arith, h, e)) clean
  ];
}

read_block-miss :
    (idx : ℕ) (s : Fs)
    → find idx s.cache ≡ none
    → (read_block idx s).1 ≡ cache_add idx (s.disk idx) false s
unfolding read_block
read_block-miss idx s e = ground (arith, e)

read_block-hit :
    (idx : ℕ) (s : Fs) (d : Datum) → find idx s.cache ≡ some d → (read_block idx s).1 ≡ s
unfolding read_block
read_block-hit idx s d e = ground (arith, e)

-- `crfs_read_block` keeps the cache coherent.
pub read_block-IsCoherent : (idx : ℕ) (s : Fs) → IsCoherent s → IsCoherent (read_block idx s).1
read_block-IsCoherent idx s c = elim (Option-cases (find idx s.cache)) [
  | inr (d, e) ↦ rw (read_block-hit idx s d e) c
  | inl e ↦
      rw (read_block-miss idx s e) (cache_add-IsCoherent idx (s.disk idx) false s e (λ p. refl) c)
]

write_block-miss :
    (idx : ℕ) (b : Block) (s : Fs)
    → find idx s.cache ≡ none
    → write_block idx b s ≡ cache_add idx b true s
unfolding write_block
write_block-miss idx b s e = ground (arith, e)

write_block-hit :
    (idx : ℕ) (b : Block) (s : Fs) (d : Datum)
    → find idx s.cache ≡ some d
    → write_block idx b s ≡ record s { cache = overwrite idx b s.cache }
unfolding write_block
write_block-hit idx b s d e = ground (arith, e)

-- `crfs_write_block` keeps the cache coherent.
pub write_block-IsCoherent :
    (idx : ℕ) (b : Block) (s : Fs) → IsCoherent s → IsCoherent (write_block idx b s)
write_block-IsCoherent idx b s c = elim (Option-cases (find idx s.cache)) [
  | inl e ↦
      rw (write_block-miss idx b s e)
        (cache_add-IsCoherent idx b true s e (λ p. absurd (ground (arith, p))) c)
  | inr (d, e) ↦ rw (write_block-hit idx b s d e) (record {
    unique = Unique-overwrite idx b s.cache c.unique;
    clean =
        λ j x h clean. ground (arith, h, clean, find-overwrite idx j b s.cache d e, c.clean j x);
  })
]
