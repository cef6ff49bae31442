-- ===== src/Crfs/Free/Flush.antt =====
-- What `cache_flush` makes of freed blocks and freed inodes.
use cobalt_rom.Prelude.{
  ℕ, ◌*◌, ◌<◌, ◌≡◌, ◌⊎◌, ◌==◌, inl, inr, List, [], ◌∷◌, refl, ◌∙◌, ap, if◌then◌else◌, arith,
}
use cobalt_rom.Crfs.State.{Fs, Datum}
use cobalt_rom.Crfs.Freemap
use cobalt_rom.Crfs.Freemap.Bit.{
  IsValid, used, busy, was_freed-le, used-unmark, busy-unmark, busy-flush,
}
use cobalt_rom.Crfs.Cache.{cache_flush}
use cobalt_rom.Crfs.Free.{on_block, on_inode}

List-cases : (xs : List Datum) → (xs ≡ []) ⊎ ((d : Datum) × (ds : List Datum) × (xs ≡ d ∷ ds))
List-cases [] = inl refl
List-cases (d ∷ ds) = inr (d, ds, refl)

maps-cache_flush :
    (s : Fs)
    → ((cache_flush s).block_freemap ≡ Freemap.flush (Freemap.flush s.block_freemap))
      × ((cache_flush s).inode_freemap ≡ s.inode_freemap)
unfolding cache_flush
maps-cache_flush s = elim (List-cases s.cache) [
  | inl e ↦ rw (e, cache_flush) (refl, refl)
  | inr (d, ds, e) ↦ rw (e, cache_flush) (refl, refl)
]

-- Of well formed maps, a block that is freed is available after the next flush. An inode in use
-- that is freed is not: `cache_flush` flushes the map of the blocks twice and the map of the inodes
-- never.
pub freed-cache_flush :
    (s : Fs) (b n : ℕ)
    → IsValid s.block_freemap
    → IsValid s.inode_freemap
    → b < s.block_freemap.mapsize * 8
    → n < s.inode_freemap.mapsize * 8
    → used s.inode_freemap n ≡ 1
    → (busy (cache_flush (on_block Freemap.unmark b (on_inode Freemap.unmark n s))).block_freemap b
        ≡ 0)
      × (busy
            (cache_flush (on_block Freemap.unmark b (on_inode Freemap.unmark n s))).inode_freemap
            n
          ≡ 1)
unfolding on_block on_inode
freed-cache_flush s b n vb vi hb hn u = (
  ap (λ (m : Freemap.Freemap). busy m b) ((maps-cache_flush freed).0)
      ∙ busy-flush (Freemap.flush (Freemap.unmark s.block_freemap b)) b
      ∙ used-flush (Freemap.unmark s.block_freemap b)
      ∙ used-unmark s.block_freemap b b vb hb
      ∙ same,
  ap (λ (m : Freemap.Freemap). busy m n) ((maps-cache_flush freed).1)
      ∙ busy-unmark s.inode_freemap n n vi hn
      ∙ omega (arith, u, was_freed-le s.inode_freemap n),
)
  where
    freed : Fs
    freed = on_block Freemap.unmark b (on_inode Freemap.unmark n s)

    used-flush : (m : Freemap.Freemap) → used (Freemap.flush m) b ≡ used m b
    used-flush m = unfold Freemap.flush in refl

    same : (if b == b then 0 else used s.block_freemap b) ≡ 0
    same = ground arith
