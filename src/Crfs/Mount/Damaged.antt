-- ===== src/Crfs/Mount/Damaged.antt =====
-- A file system of which the first super block is damaged, mounted and flushed.
use cobalt_rom.Prelude.{ℕ, ◌<◌, ◌≡◌, refl, sym, ◌∙◌, ap, false, Option, none, some, List, ◌∷◌}
use cobalt_rom.Crfs.Layout.{Block}
use cobalt_rom.Crfs.State.{Datum, Fs}
use cobalt_rom.Crfs.Cache.{next_super, next_which, cache_flush}
use cobalt_rom.Crfs.Cache.View.{view}
use cobalt_rom.Crfs.Cache.Coherent.{IsCoherent}
use cobalt_rom.Crfs.Cache.Flush.{super_place, disk-cache_flush-view, disk-cache_flush-super}
use cobalt_rom.Crfs.Mount.{is_super_block, choose_super}
use cobalt_rom.Crfs.Mount.Choice.{version, choose_super_second}

-- When only the second place holds a valid super block, of a version of at least 1, `crfs_init`
-- chooses it. A flush of a coherent cache that is not empty, with the number of the super block
-- that `crfs_init` chose, then writes over that place, the only valid super block there is; the
-- damaged place gets no super block, but keeps what the file system saw in it.
pub choose_super_damaged :
    (s t : Fs) (d : Datum) (ds : List Datum) (w : ℕ) (sb : Block)
    → is_super_block (s.disk 0) ≡ false
    → 0 < version (s.disk 16)
    → (choose_super s).0 ≡ some (w, sb)
    → t.which_super ≡ some w
    → t.cache ≡ d ∷ ds
    → IsCoherent t
    → (sb ≡ s.disk 16)
      × ((cache_flush t).disk 16 ≡ next_super t.super_block)
      × ((cache_flush t).disk 0 ≡ view t 0)
choose_super_damaged s t d ds w sb bad good chosen which ne c = (
  ap (block_of sb) both,
  ap (λ j. (cache_flush t).disk j) (sym place) ∙ disk-cache_flush-super t d ds ne,
  disk-cache_flush-view t 0 c (rw place refl),
)
  where
    number_of : Option (ℕ × Block) → ℕ
    number_of none = 0
    number_of (some p) = p.0

    block_of : Block → Option (ℕ × Block) → Block
    block_of b none = b
    block_of b (some p) = p.1

    both : ◌≡◌ {A = Option (ℕ × Block)} (some (w, sb)) (some (0, s.disk 16))
    both = sym chosen ∙ choose_super_second s bad good

    place : super_place t ≡ 16
    place = rw (which, ap number_of both) (unfold next_which in refl)
