-- ===== src/Crfs/Cache/Flush/Writes.antt =====
-- The list of writes of a flush: what it leaves in each block, and what a part of it leaves alone.
use cobalt_rom.Prelude.{
  ℕ, zero, suc, ◌≤◌, ◌<◌, ◌≡◌, ◌⊎◌, refl, sym, ap, ◌∙◌, Bool, true, false, Option, none, some, List,
  [], ◌∷◌, ◌++◌, length, take, take-nil, ◌==◌, ==_iff, Bool-cases, inl, inr, if◌then◌else◌, arith,
}
use cobalt_rom.Crfs.Layout.{Block}
use cobalt_rom.Crfs.State.{Datum, Disk}
use cobalt_rom.Crfs.Cache.{find, store_block, dirty_writes, apply_writes}
use cobalt_rom.Crfs.Cache.Coherent.{Unique}

abbrev pub kept : Option Datum → Block → Block
kept none b = b
kept (some d) b = if d.dt_dirty then d.dt_data else b

-- What the dirty writes leave in a block: the data of its entry, if that is dirty.
abbrev pub written : ℕ → List Datum → Disk → Block
written j ds disk = kept (find j ds) (disk j)

abbrev pub is_dirty : Option Datum → Bool
is_dirty none = false
is_dirty (some d) = d.dt_dirty

dirty_writes-cons :
    (d : Datum) (ds : List Datum)
    → d.dt_dirty ≡ true
    → dirty_writes (d ∷ ds) ≡ (d.dt_blockaddr, d.dt_data) ∷ dirty_writes ds
unfolding dirty_writes
dirty_writes-cons d ds e = rw e

dirty_writes-cons_clean :
    (d : Datum) (ds : List Datum) → d.dt_dirty ≡ false → dirty_writes (d ∷ ds) ≡ dirty_writes ds
unfolding dirty_writes
dirty_writes-cons_clean d ds e = rw e

find-cons_self :
    (j : ℕ) (d : Datum) (ds : List Datum) → d.dt_blockaddr == j ≡ true → find j (d ∷ ds) ≡ some d
unfolding find
find-cons_self j d ds e = rw e

find-cons_ne :
    (j : ℕ) (d : Datum) (ds : List Datum)
    → d.dt_blockaddr == j ≡ false
    → find j (d ∷ ds) ≡ find j ds
unfolding find
find-cons_ne j d ds e = rw e

store_block_self : (j : ℕ) (b : Block) (disk : Disk) → store_block j b disk j ≡ b
unfolding store_block
store_block_self j b disk = ground arith

store_block_ne :
    (i j : ℕ) (b : Block) (disk : Disk) → i == j ≡ false → store_block i b disk j ≡ disk j
unfolding store_block
store_block_ne i j b disk e = ground (arith, e)

written-none :
    (j : ℕ) (ds : List Datum) (disk : Disk) → find j ds ≡ none → written j ds disk ≡ disk j
written-none j ds disk e = rw e

written-some :
    (j : ℕ) (ds : List Datum) (disk : Disk) (d : Datum)
    → find j ds ≡ some d
    → written j ds disk ≡ (if d.dt_dirty then d.dt_data else disk j)
written-some j ds disk d e = rw e

written-cons_ne :
    (j : ℕ) (d : Datum) (ds : List Datum) (disk disk' : Disk)
    → d.dt_blockaddr == j ≡ false
    → disk j ≡ disk' j
    → written j ds disk ≡ written j (d ∷ ds) disk'
written-cons_ne j d ds disk disk' e p = rw (find-cons_ne j d ds e, p)

-- The dirty writes leave in each block the data of its entry, if that is dirty.
pub apply_writes-dirty_writes :
    (j : ℕ) (ds : List Datum) (disk : Disk)
    → Unique ds
    → apply_writes (dirty_writes ds) disk j ≡ written j ds disk
apply_writes-dirty_writes j [] disk u = unfold apply_writes dirty_writes find in refl
apply_writes-dirty_writes j (d ∷ ds) disk u = elim (Bool-cases d.dt_dirty) [
  | inr e ↦
      rw (dirty_writes-cons_clean d ds e)
        (apply_writes-dirty_writes j ds disk u.1 ∙ clean e (Bool-cases (d.dt_blockaddr == j)))
  | inl e ↦ rw (dirty_writes-cons d ds e) (
      first (apply_writes-dirty_writes j ds disk1 u.1) ∙ dirty e (Bool-cases (d.dt_blockaddr == j)))
]
  where
    disk1 : Disk
    disk1 = store_block d.dt_blockaddr d.dt_data disk

    first :
        apply_writes (dirty_writes ds) disk1 j ≡ written j ds disk1
        → apply_writes ((d.dt_blockaddr, d.dt_data) ∷ dirty_writes ds) disk j ≡ written j ds disk1
    first p = unfold apply_writes in p

    absent : d.dt_blockaddr == j ≡ true → find j ds ≡ none
    absent e = rw (← (==_iff d.dt_blockaddr j).0 e) u.0

    stored : d.dt_blockaddr == j ≡ true → disk1 j ≡ d.dt_data
    stored e = rw (← (==_iff d.dt_blockaddr j).0 e) (store_block_self d.dt_blockaddr d.dt_data disk)

    clean :
        d.dt_dirty ≡ false
        → (d.dt_blockaddr == j ≡ true) ⊎ (d.dt_blockaddr == j ≡ false)
        → written j ds disk ≡ written j (d ∷ ds) disk
    clean e (inl p) =
        written-none j ds disk (absent p)
        ∙ sym (written-some j (d ∷ ds) disk d (find-cons_self j d ds p) ∙ rw e)
    clean e (inr p) = written-cons_ne j d ds disk disk p refl

    dirty :
        d.dt_dirty ≡ true
        → (d.dt_blockaddr == j ≡ true) ⊎ (d.dt_blockaddr == j ≡ false)
        → written j ds disk1 ≡ written j (d ∷ ds) disk
    dirty e (inl p) =
        written-none j ds disk1 (absent p)
        ∙ (stored p ∙ sym (written-some j (d ∷ ds) disk d (find-cons_self j d ds p) ∙ rw e))
    dirty e (inr p) =
        written-cons_ne j d ds disk1 disk p (store_block_ne d.dt_blockaddr j d.dt_data disk p)

pub take-append_le :
    (k : ℕ) (xs ys : List (ℕ × Block)) → k ≤ length xs → take k (xs ++ ys) ≡ take k xs
take-append_le zero xs ys h = refl
take-append_le (suc k) [] ys h = absurd (omega arith)
take-append_le (suc k) (x ∷ xs) ys h = ap (λ t. x ∷ t) (take-append_le k xs ys (omega arith))

pub take-append_all :
    (k : ℕ) (xs : List (ℕ × Block)) (y : ℕ × Block)
    → length xs < k
    → take k (xs ++ y ∷ []) ≡ xs ++ y ∷ []
take-append_all zero xs y h = absurd (omega arith)
take-append_all (suc k) [] y h = ap (λ t. y ∷ t) (take-nil k)
take-append_all (suc k) (x ∷ xs) y h = ap (λ t. x ∷ t) (take-append_all k xs y (omega arith))

-- Every block that no write is for stays.
abbrev pub Avoids : ℕ → List (ℕ × Block) → Type 0
Avoids j [] = Unit {0}
Avoids j ((i, b) ∷ ws) = (i == j ≡ false) × Avoids j ws

pub apply_writes-Avoids :
    (j : ℕ) (ws : List (ℕ × Block)) (disk : Disk) → Avoids j ws → apply_writes ws disk j ≡ disk j
apply_writes-Avoids j [] disk h = unfold apply_writes in refl
apply_writes-Avoids j ((i, b) ∷ ws) disk h =
    first (apply_writes-Avoids j ws (store_block i b disk) h.1) ∙ store_block_ne i j b disk h.0
  where
    first :
        apply_writes ws (store_block i b disk) j ≡ store_block i b disk j
        → apply_writes ((i, b) ∷ ws) disk j ≡ store_block i b disk j
    first p = unfold apply_writes in p

pub take-Avoids : (j k : ℕ) (ws : List (ℕ × Block)) → Avoids j ws → Avoids j (take k ws)
take-Avoids j zero ws h = tt
take-Avoids j (suc k) [] h = tt
take-Avoids j (suc k) ((i, b) ∷ ws) h = (h.0, take-Avoids j k ws h.1)

pub dirty_writes-Avoids :
    (j : ℕ) (ds : List Datum)
    → Unique ds
    → is_dirty (find j ds) ≡ false
    → Avoids j (dirty_writes ds)
dirty_writes-Avoids j [] u h = unfold dirty_writes in tt
dirty_writes-Avoids j (d ∷ ds) u h = elim (Bool-cases d.dt_dirty) [
  | inr e ↦
      rw (dirty_writes-cons_clean d ds e)
        (dirty_writes-Avoids j ds u.1 (rest (Bool-cases (d.dt_blockaddr == j))))
  | inl e ↦ rw (dirty_writes-cons d ds e) (
    other e (Bool-cases (d.dt_blockaddr == j)),
    dirty_writes-Avoids j ds u.1 (rest (Bool-cases (d.dt_blockaddr == j))),
  )
]
  where
    rest :
        (d.dt_blockaddr == j ≡ true) ⊎ (d.dt_blockaddr == j ≡ false) → is_dirty (find j ds) ≡ false
    rest (inl p) =
        let absent : find j ds ≡ none = rw (← (==_iff d.dt_blockaddr j).0 p) u.0 in
        ap is_dirty absent
    rest (inr p) = ap is_dirty (sym (find-cons_ne j d ds p)) ∙ h

    other :
        d.dt_dirty ≡ true
        → (d.dt_blockaddr == j ≡ true) ⊎ (d.dt_blockaddr == j ≡ false)
        → d.dt_blockaddr == j ≡ false
    other e (inl p) = absurd (ground (arith, e, ap is_dirty (sym (find-cons_self j d ds p)) ∙ h))
    other e (inr p) = p

pub Avoids-append :
    (j : ℕ) (ws vs : List (ℕ × Block)) → Avoids j ws → Avoids j vs → Avoids j (ws ++ vs)
Avoids-append j [] vs h k = k
Avoids-append j ((i, b) ∷ ws) vs h k = (h.0, Avoids-append j ws vs h.1 k)

pub apply_writes-snoc :
    (ws : List (ℕ × Block)) (i : ℕ) (b : Block) (disk : Disk)
    → apply_writes (ws ++ (i, b) ∷ []) disk ≡ store_block i b (apply_writes ws disk)
unfolding apply_writes
apply_writes-snoc [] i b disk = refl
apply_writes-snoc ((k, c) ∷ ws) i b disk = apply_writes-snoc ws i b (store_block k c disk)
