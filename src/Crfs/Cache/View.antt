-- ===== src/Crfs/Cache/View.antt =====
-- The cache against a plain store of blocks: what a read returns and what a write changes.
use cobalt_rom.Prelude.{
  ℕ, ◌≡◌, true, Option, none, some, List, [], ◌∷◌, ◌==◌, ◌||◌, Option-cases, inl, inr,
  if◌then◌else◌, arith,
}
use cobalt_rom.Crfs.Layout.{Block}
use cobalt_rom.Crfs.State.{Datum, Fs}
use cobalt_rom.Crfs.Cache.{find, cache_add, overwrite, read_block, write_block, block_is_dirty}

abbrev pub cached_or : Option Datum → Block → Block
cached_or none b = b
cached_or (some d) b = d.dt_data

-- The content of a block as the file system sees it: the cached copy, else the backing store's.
abbrev pub view : Fs → ℕ → Block
view s idx = cached_or (find idx s.cache) (s.disk idx)

-- `crfs_read_block` returns the block as the file system sees it.
pub read_block-view : (idx : ℕ) (s : Fs) → (read_block idx s).0 ≡ view s idx
unfolding read_block
read_block-view idx s = ground arith

-- `crfs_read_block` changes no block.
pub view-read_block : (idx j : ℕ) (s : Fs) → view (read_block idx s).1 j ≡ view s j
unfolding read_block cache_add find
view-read_block idx j s = ground arith

pub find-overwrite :
    (idx j : ℕ) (b : Block) (ds : List Datum) (d : Datum)
    → find idx ds ≡ some d
    → find j (overwrite idx b ds)
      ≡ (if idx == j then some (record d { dt_data = b; dt_dirty = true }) else find j ds)
unfolding find overwrite
find-overwrite idx j b [] d e = cc
find-overwrite idx j b (x ∷ ds) d e = ground (arith, find-overwrite idx j b ds d)

-- `crfs_write_block` changes its block and no other.
pub view-write_block :
    (idx j : ℕ) (b : Block) (s : Fs)
    → view (write_block idx b s) j ≡ (if idx == j then b else view s j)
unfolding write_block cache_add find
view-write_block idx j b s = elim (Option-cases (find idx s.cache)) [
  | inl e ↦ ground (arith, e)
  | inr (d, e) ↦ ground (arith, e, find-overwrite idx j b s.cache d e)
]

-- `crfs_write_block` makes its block dirty and leaves the other blocks' state.
pub block_is_dirty-write_block :
    (idx j : ℕ) (b : Block) (s : Fs)
    → block_is_dirty j (write_block idx b s) ≡ ((idx == j) || block_is_dirty j s)
unfolding block_is_dirty write_block cache_add find
block_is_dirty-write_block idx j b s = elim (Option-cases (find idx s.cache)) [
  | inl e ↦ ground (arith, e)
  | inr (d, e) ↦ ground (arith, e, find-overwrite idx j b s.cache d e)
]

-- `crfs_read_block` makes no block dirty and none clean.
pub block_is_dirty-read_block :
    (idx j : ℕ) (s : Fs) → block_is_dirty j (read_block idx s).1 ≡ block_is_dirty j s
unfolding block_is_dirty read_block cache_add find
block_is_dirty-read_block idx j s = ground arith

-- Neither touches the freemap of the blocks, the backing store or the choice of the super block.
pub block_freemap-read_block :
    (idx : ℕ) (s : Fs) → (read_block idx s).1.block_freemap ≡ s.block_freemap
unfolding read_block cache_add
block_freemap-read_block idx s = ground arith

pub block_freemap-write_block :
    (idx : ℕ) (b : Block) (s : Fs) → (write_block idx b s).block_freemap ≡ s.block_freemap
unfolding write_block cache_add
block_freemap-write_block idx b s = ground arith

pub disk-read_block : (idx : ℕ) (s : Fs) → (read_block idx s).1.disk ≡ s.disk
unfolding read_block cache_add
disk-read_block idx s = ground arith

pub disk-write_block : (idx : ℕ) (b : Block) (s : Fs) → (write_block idx b s).disk ≡ s.disk
unfolding write_block cache_add
disk-write_block idx b s = ground arith

pub which_super-read_block : (idx : ℕ) (s : Fs) → (read_block idx s).1.which_super ≡ s.which_super
unfolding read_block cache_add
which_super-read_block idx s = ground arith

pub which_super-write_block :
    (idx : ℕ) (b : Block) (s : Fs) → (write_block idx b s).which_super ≡ s.which_super
unfolding write_block cache_add
which_super-write_block idx b s = ground arith

pub super_block-write_block :
    (idx : ℕ) (b : Block) (s : Fs) → (write_block idx b s).super_block ≡ s.super_block
unfolding write_block cache_add
super_block-write_block idx b s = ground arith
