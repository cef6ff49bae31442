-- ===== src/Crfs/Cache/Flush.antt =====
-- `cache_flush`: what reaches the backing store, and what is there when the flush is cut short.
mod Writes
use Writes.{
  written, kept, is_dirty, apply_writes-dirty_writes, apply_writes-snoc, Avoids, Avoids-append,
  take-append_le, take-append_all, apply_writes-Avoids, take-Avoids, dirty_writes-Avoids,
}
use cobalt_rom.Prelude.{
  ℕ, ◌+◌, ◌*◌, ◌%◌, ◌≤◌, ◌<◌, ◌≡◌, ◌≢◌, ◌⊎◌, refl, sym, ap, ◌∙◌, Bool, true, false, Option, none,
  some, List, [], ◌∷◌, ◌++◌, length, take, take-nil, ◌==◌, ==_iff, ==_false_iff, Bool-cases,
  Option-cases, inl, inr, leb, if◌then◌else◌, arith,
}
use cobalt_rom.Crfs.Layout.{Block}
use cobalt_rom.Crfs.State.{Datum, Disk, Fs}
use cobalt_rom.Crfs.Cache.{
  find, store_block, sb_blocknum, next_super, next_which, dirty_writes, flush_writes, apply_writes,
  cache_flush, block_is_dirty,
}
use cobalt_rom.Crfs.Cache.View.{view}
use cobalt_rom.Crfs.Cache.Coherent.{Unique, IsCoherent}

-- Where the flush puts the super block.
abbrev pub super_place : Fs → ℕ
super_place s = sb_blocknum (next_which s.which_super)

-- The backing store when only the first `k` writes of a flush have been made.
pub crashed : ℕ → Fs → Disk
crashed k s = apply_writes (take k (flush_writes s)) s.disk

List-cases : (xs : List Datum) → (xs ≡ []) ⊎ ((d : Datum) × (ds : List Datum) × (xs ≡ d ∷ ds))
List-cases [] = inl refl
List-cases (d ∷ ds) = inr (d, ds, refl)

flush_writes-cons :
    (s : Fs) (d : Datum) (ds : List Datum)
    → s.cache ≡ d ∷ ds
    → flush_writes s ≡ dirty_writes s.cache ++ (super_place s, next_super s.super_block) ∷ []
unfolding flush_writes
flush_writes-cons s d ds e = ground (arith, e)

flush_writes-nil : (s : Fs) → s.cache ≡ [] → flush_writes s ≡ []
unfolding flush_writes
flush_writes-nil s e = ground (arith, e)

pub disk-cache_flush : (s : Fs) → (cache_flush s).disk ≡ apply_writes (flush_writes s) s.disk
disk-cache_flush s = elim (List-cases s.cache) [
  | inl e ↦ nil e ∙ sym (rw (flush_writes-nil s e) (unfold apply_writes in refl))
  | inr (d, ds, e) ↦ cons d ds e
]
  where
    nil : s.cache ≡ [] → (cache_flush s).disk ≡ s.disk
    nil e = unfold cache_flush in ground (arith, e)

    cons :
        (d : Datum) (ds : List Datum)
        → s.cache ≡ d ∷ ds
        → (cache_flush s).disk ≡ apply_writes (flush_writes s) s.disk
    cons d ds e = unfold cache_flush in ground (arith, e)

-- The disk after all writes of a flush with a cache that is not empty.
apply_flush_writes :
    (s : Fs) (d : Datum) (ds : List Datum) (j : ℕ)
    → s.cache ≡ d ∷ ds
    → apply_writes (flush_writes s) s.disk j
      ≡ store_block
          (super_place s)
          (next_super s.super_block)
          (apply_writes (dirty_writes s.cache) s.disk)
          j
apply_flush_writes s d ds j e = rw (flush_writes-cons s d ds e) (
    ap (λ (t : Disk). t j)
      (apply_writes-snoc (dirty_writes s.cache) (super_place s) (next_super s.super_block) s.disk))

is_clean : (s : Fs) (j : ℕ) → block_is_dirty j s ≡ false → is_dirty (find j s.cache) ≡ false
unfolding block_is_dirty
is_clean s j h = ground (arith, h)

kept-view : (s : Fs) (j : ℕ) → IsCoherent s → written j s.cache s.disk ≡ view s j
kept-view s j c = elim (Option-cases (find j s.cache)) [
  | inl e ↦ rw e
  | inr (d, e) ↦ elim (Bool-cases d.dt_dirty) [
    | inl p ↦ rw e (rw p refl)
    | inr p ↦ rw e (rw p (sym (c.clean j d e p)))
  ]
]

-- A complete flush of a coherent cache puts every cached change into the backing store: each block
-- but the place of the super block then holds what the file system saw in it before.
pub disk-cache_flush-view :
    (s : Fs) (j : ℕ) → IsCoherent s → super_place s == j ≡ false → (cache_flush s).disk j ≡ view s j
disk-cache_flush-view s j c ne =
    ap (λ (t : Disk). t j) (disk-cache_flush s) ∙ elim (List-cases s.cache) [
      | inl e ↦ rw (flush_writes-nil s e) (unfold apply_writes in none_cached e)
      | inr (d, ds, e) ↦
          apply_flush_writes s d ds j e
          ∙ other (apply_writes (dirty_writes s.cache) s.disk)
          ∙ apply_writes-dirty_writes j s.cache s.disk c.unique
          ∙ kept-view s j c
    ]
  where
    none_cached : s.cache ≡ [] → s.disk j ≡ view s j
    none_cached e = rw e (unfold find in refl)

    other : (disk : Disk) → store_block (super_place s) (next_super s.super_block) disk j ≡ disk j
    other disk = unfold store_block in ground (arith, ne)

flush_writes-Avoids :
    (s : Fs) (j : ℕ)
    → IsCoherent s
    → block_is_dirty j s ≡ false
    → super_place s == j ≡ false
    → Avoids j (flush_writes s)
flush_writes-Avoids s j c clean ne = elim (List-cases s.cache) [
  | inl e ↦ rw (flush_writes-nil s e) tt
  | inr (d, ds, e) ↦ rw (flush_writes-cons s d ds e) (
      Avoids-append j (dirty_writes s.cache) _
        (dirty_writes-Avoids j s.cache c.unique (is_clean s j clean)) (ne, tt))
]

-- A flush of a coherent cache that is cut short before it writes the super block leaves each block
-- alone that no dirty entry is for. One that is cut short later has made all its writes.
pub crashed_cases :
    (k : ℕ) (s : Fs)
    → IsCoherent s
    → ((j : ℕ) → block_is_dirty j s ≡ false → crashed k s j ≡ s.disk j)
      ⊎ (crashed k s ≡ (cache_flush s).disk)
unfolding crashed
crashed_cases k s c = elim (List-cases s.cache) [
  | inl e ↦ inr (rw (disk-cache_flush s, flush_writes-nil s e, take-nil k))
  | inr (d, ds, e) ↦ elim (Bool-cases (leb k (length (dirty_writes s.cache)))) [
    | inl early ↦ inl (λ j clean.
        rw (flush_writes-cons s d ds e, take-append_le k (dirty_writes s.cache) _ (ground arith))
          (apply_writes-Avoids j (take k (dirty_writes s.cache)) s.disk (
            take-Avoids j k (dirty_writes s.cache)
              (dirty_writes-Avoids j s.cache c.unique (is_clean s j clean)))))
    | inr late ↦ inr (
        rw (
          disk-cache_flush s,
          flush_writes-cons s d ds e,
          take-append_all k (dirty_writes s.cache) _ (ground arith),
        ))
  ]
]

-- Wherever a flush is cut short, the super block that was in force before it stays on the backing
-- store, if no dirty entry is for its place.
pub crashed-super_block :
    (k : ℕ) (s : Fs) (w : ℕ)
    → IsCoherent s
    → s.which_super ≡ some w
    → w < 2
    → block_is_dirty (sb_blocknum w) s ≡ false
    → crashed k s (sb_blocknum w) ≡ s.disk (sb_blocknum w)
unfolding crashed
crashed-super_block k s w c e h clean =
    apply_writes-Avoids (sb_blocknum w) (take k (flush_writes s)) s.disk (
      take-Avoids (sb_blocknum w) k (flush_writes s)
        (flush_writes-Avoids s (sb_blocknum w) c clean elsewhere))
  where
    elsewhere : super_place s == sb_blocknum w ≡ false
    elsewhere = rw e (unfold next_which in ground arith)

-- A complete flush of a cache that is not empty puts the new super block in its place.
pub disk-cache_flush-super :
    (s : Fs) (d : Datum) (ds : List Datum)
    → s.cache ≡ d ∷ ds
    → (cache_flush s).disk (super_place s) ≡ next_super s.super_block
disk-cache_flush-super s d ds e =
    ap (λ (t : Disk). t (super_place s)) (disk-cache_flush s)
    ∙ apply_flush_writes s d ds (super_place s) e
    ∙ here (apply_writes (dirty_writes s.cache) s.disk)
  where
    here :
        (disk : Disk)
        → store_block (super_place s) (next_super s.super_block) disk (super_place s)
          ≡ next_super s.super_block
    here disk = unfold store_block in ground arith
