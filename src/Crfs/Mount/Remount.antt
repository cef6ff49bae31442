-- ===== src/Crfs/Mount/Remount.antt =====
-- After a flush, `crfs_init` chooses the super block that the flush has written.
use cobalt_rom.Prelude.{
  ℕ, zero, suc, ◌+◌, ◌%◌, ◌^◌, ◌≤◌, ◌<◌, ◌≡◌, refl, sym, ◌∙◌, ap, Bool, true, ◌&&◌, some, List, [],
  ◌∷◌, length, ltb, ◌==◌, if◌then◌else◌, arith,
}
use mathlib.Core.Path.{subst}
use cobalt_rom.Crfs.Layout.{Block, get32, put32, get_string, string_from, sb_checksum, sb_blockver}
use cobalt_rom.Crfs.Layout.Strings.{string_from-suc}
use cobalt_rom.Crfs.State.{Datum, Fs}
use cobalt_rom.Crfs.Cache.{checksum, sb_blocknum, next_super, next_which, cache_flush}
use cobalt_rom.Crfs.Cache.View.{view}
use cobalt_rom.Crfs.Cache.Coherent.{IsCoherent}
use cobalt_rom.Crfs.Cache.Checksum.{next_super_lem}
use cobalt_rom.Crfs.Cache.Flush.{super_place, disk-cache_flush-view, disk-cache_flush-super}
use cobalt_rom.Crfs.Dir.{same_name}
use cobalt_rom.Crfs.Mount.{magic, is_super_block, choose_super}
use cobalt_rom.Crfs.Mount.Choice.{version, choose_super_newest}

-- Two blocks that agree on the characters of a name and on the byte after it agree on the name.
same_name-agree :
    (n o : ℕ) (b b' : Block) (xs : List ℕ)
    → ((k : ℕ) → o ≤ k → k < o + suc (length xs) → b' k ≡ b k)
    → same_name (string_from n b o) xs ≡ true
    → same_name (string_from n b' o) xs ≡ true
same_name-agree zero o b b' xs agree h = unfold string_from in unfold string_from in h
same_name-agree (suc n) o b b' [] agree h =
    rw (string_from-suc n b' o, agree o (ground arith) (ground arith))
      (empty (b o) (string_from n b (o + 1)) (string_from n b' (o + 1))
        (subst (λ (l : List ℕ). same_name l [] ≡ true) (string_from-suc n b o) h))
  where
    empty :
        (c : ℕ) (l l' : List ℕ)
        → same_name (if c == 0 then [] else c ∷ l) [] ≡ true
        → same_name (if c == 0 then [] else c ∷ l') [] ≡ true
    empty c l l' h = unfold same_name in ground (arith, h)
same_name-agree (suc n) o b b' (x ∷ xs) agree h =
    rw (string_from-suc n b' o, agree o (ground arith) (ground arith))
      (step (b o) (string_from n b (o + 1)) (string_from n b' (o + 1))
        (same_name-agree n (o + 1) b b' xs
          (λ k lo hi. agree k (ground (arith, lo)) (ground (arith, hi))))
        (subst (λ (l : List ℕ). same_name l (x ∷ xs) ≡ true) (string_from-suc n b o) h))
  where
    step :
        (c : ℕ) (l l' : List ℕ)
        → (same_name l xs ≡ true → same_name l' xs ≡ true)
        → same_name (if c == 0 then [] else c ∷ l) (x ∷ xs) ≡ true
        → same_name (if c == 0 then [] else c ∷ l') (x ∷ xs) ≡ true
    step c l l' ih h = unfold same_name in ground (arith, ih, h)

put32_outside : (b : Block) (o v k : ℕ) → k < o → put32 b o v k ≡ b k
unfolding put32
put32_outside b o v k h = ground arith

-- A field after the magic bytes and the byte after them leaves what they say.
pub magic-put32 :
    (sb : Block) (o v : ℕ)
    → 4 < o
    → same_name (get_string sb 0) magic ≡ true
    → same_name (get_string (put32 sb o v) 0) magic ≡ true
unfolding get_string
magic-put32 sb o v after h = same_name-agree 4096 0 sb (put32 sb o v) magic same h
  where
    same : (k : ℕ) → 0 ≤ k → k < 0 + suc (length magic) → put32 sb o v k ≡ sb k
    same k lo hi = put32_outside sb o v k (omega (arith, hi, after))

-- `cache_flush` keeps the magic bytes of a super block.
pub magic-next_super :
    (sb : Block)
    → same_name (get_string sb 0) magic ≡ true
    → same_name (get_string (next_super sb) 0) magic ≡ true
unfolding next_super
magic-next_super sb h =
    magic-put32 _ sb_checksum _ (omega arith) (magic-put32 sb sb_blockver _ (omega arith) h)

-- Check sum and magic bytes make a super block valid.
pub is_super_block-magic :
    (sb : Block)
    → get32 sb sb_checksum ≡ checksum sb
    → same_name (get_string sb 0) magic ≡ true
    → is_super_block sb ≡ true
unfolding is_super_block
is_super_block-magic sb e h = both (get32 sb sb_checksum) (checksum sb) _ e h
  where
    both : (a b : ℕ) (m : Bool) → a ≡ b → m ≡ true → (a == b && m) ≡ true
    both a b m e f = ground (arith, e, f)

is_super_block-next_super :
    (sb : Block) → same_name (get_string sb 0) magic ≡ true → is_super_block (next_super sb) ≡ true
is_super_block-next_super sb h =
    is_super_block-magic (next_super sb) ((next_super_lem sb).0) (magic-next_super sb h)

pub version-next_super :
    (sb : Block)
    → same_name (get_string sb 0) magic ≡ true
    → get32 sb sb_blockver + 1 < 2 ^ 32
    → version (next_super sb) ≡ get32 sb sb_blockver + 1
version-next_super sb h fits =
    rw (is_super_block-next_super sb h) ((next_super_lem sb).1 ∙ small (get32 sb sb_blockver) fits)
  where
    small : (v : ℕ) → v + 1 < 2 ^ 32 → (v + 1) % 2 ^ 32 ≡ v + 1
    small v h = omega arith

newer_second :
    (s : Fs)
    → 0 < version (s.disk 0)
    → version (s.disk 0) < version (s.disk 16)
    → (choose_super s).0 ≡ some (1, s.disk 16)
newer_second s p lt =
    choose_super_newest s p (ground (arith, p, lt)) (ground (arith, lt))
    ∙ pick (version (s.disk 0)) (version (s.disk 16)) (1, s.disk 16) (0, s.disk 0) lt
  where
    pick : (m n : ℕ) (x y : ℕ × Block) → m < n → (if ltb m n then some x else some y) ≡ some x
    pick m n x y lt = ground (arith, lt)

newer_first :
    (s : Fs)
    → 0 < version (s.disk 16)
    → version (s.disk 16) < version (s.disk 0)
    → (choose_super s).0 ≡ some (0, s.disk 0)
newer_first s p lt =
    choose_super_newest s (ground (arith, p, lt)) p (ground (arith, lt))
    ∙ pick (version (s.disk 0)) (version (s.disk 16)) (1, s.disk 16) (0, s.disk 0) lt
  where
    pick : (m n : ℕ) (x y : ℕ × Block) → n < m → (if ltb m n then some x else some y) ≡ some y
    pick m n x y lt = ground (arith, lt)

-- After a flush of a coherent cache that is not empty, `crfs_init` chooses the super block that the
-- flush has written, at the place where it was written, if the super block in memory has the magic
-- bytes and a version that can be counted up in 32 bits, and the place in force holds a valid super
-- block of a version from 1 to that one.
pub choose_super-cache_flush :
    (s : Fs) (d : Datum) (ds : List Datum) (w : ℕ)
    → IsCoherent s
    → s.cache ≡ d ∷ ds
    → s.which_super ≡ some w
    → w < 2
    → same_name (get_string s.super_block 0) magic ≡ true
    → get32 s.super_block sb_blockver + 1 < 2 ^ 32
    → 0 < version (view s (sb_blocknum w))
    → version (view s (sb_blocknum w)) ≤ get32 s.super_block sb_blockver
    → (choose_super (cache_flush s)).0 ≡ some (next_which (some w), next_super s.super_block)
choose_super-cache_flush s d ds zero c ne which lt mg fits valid old =
    newer_second (cache_flush s) (rw kept valid) (rw (kept, new, newer) (omega (arith, old)))
    ∙ ap (λ (b : Block). some (1, b)) new
    ∙ (unfold next_which in refl)
  where
    place : super_place s ≡ 16
    place = rw which (unfold next_which in refl)

    new : (cache_flush s).disk 16 ≡ next_super s.super_block
    new = ap (λ (j : ℕ). (cache_flush s).disk j) (sym place) ∙ disk-cache_flush-super s d ds ne

    kept : (cache_flush s).disk 0 ≡ view s 0
    kept = disk-cache_flush-view s 0 c (rw place refl)

    newer : version (next_super s.super_block) ≡ get32 s.super_block sb_blockver + 1
    newer = version-next_super s.super_block mg fits
choose_super-cache_flush s d ds (suc zero) c ne which lt mg fits valid old =
    newer_first (cache_flush s) (rw kept valid) (rw (kept, new, newer) (omega (arith, old)))
    ∙ ap (λ (b : Block). some (0, b)) new
    ∙ (unfold next_which in refl)
  where
    place : super_place s ≡ 0
    place = rw which (unfold next_which in refl)

    new : (cache_flush s).disk 0 ≡ next_super s.super_block
    new = ap (λ (j : ℕ). (cache_flush s).disk j) (sym place) ∙ disk-cache_flush-super s d ds ne

    kept : (cache_flush s).disk 16 ≡ view s 16
    kept = disk-cache_flush-view s 16 c (rw place refl)

    newer : version (next_super s.super_block) ≡ get32 s.super_block sb_blockver + 1
    newer = version-next_super s.super_block mg fits
choose_super-cache_flush s d ds (suc (suc w)) c ne which lt mg fits valid old = ground (arith, lt)
