-- ===== src/Crfs/Cache.antt =====
-- The block cache of cobalt_romfs/crfs_func.c: `crfs_read_block`, `crfs_write_block`, `cache_add`,
-- `block_is_dirty`, `cache_flush` and the check sum of a super block.
pub mod View
pub mod Coherent
pub mod Checksum
pub mod Flush
use cobalt_rom.Prelude.{
  ℕ, zero, suc, ◌+◌, ◌-◌, ◌*◌, ◌%◌, ◌^◌, Bool, true, false, Option, none, some, List, [], ◌∷◌, ◌++◌,
  ◌==◌, if◌then◌else◌,
}
use cobalt_rom.Crfs.Layout.{Block, get32, put32, sb_checksum, sb_blockver, nsblocks}
use cobalt_rom.Crfs.State.{Datum, Disk, Fs}
use cobalt_rom.Crfs.Freemap

-- The walk over `crfs_block_cache` for a block's entry.
unfoldable pub find : ℕ → List Datum → Option Datum
find idx [] = none
find idx (d ∷ ds) = if d.dt_blockaddr == idx then some d else find idx ds

-- The allocations of an entry and of its data are taken to succeed.
unfoldable pub cache_add : ℕ → Block → Bool → Fs → Fs
cache_add idx bytes dirty s = record s {
  cache = record { dt_blockaddr = idx; dt_dirty = dirty; dt_data = bytes } ∷ s.cache;
}

unfoldable pub read_block : ℕ → Fs → Block × Fs
read_block idx s = elim (find idx s.cache) [
  | some d ↦ (d.dt_data, s)
  | none ↦ (s.disk idx, cache_add idx (s.disk idx) false s)
]

-- The entry that the walk finds takes the new data and is dirty.
unfoldable pub overwrite : ℕ → Block → List Datum → List Datum
overwrite idx bytes [] = []
overwrite idx bytes (d ∷ ds) =
    if d.dt_blockaddr == idx
    then record d { dt_data = bytes; dt_dirty = true } ∷ ds
    else d ∷ overwrite idx bytes ds

unfoldable pub write_block : ℕ → Block → Fs → Fs
write_block idx bytes s = elim (find idx s.cache) [
  | some d ↦ record s { cache = overwrite idx bytes s.cache }
  | none ↦ cache_add idx bytes true s
]

unfoldable pub block_is_dirty : ℕ → Fs → Bool
block_is_dirty idx s = elim (find idx s.cache) [ some d ↦ d.dt_dirty | none ↦ false ]

-- The loop of `crfs_checksum` over the 32-bit words but word 2, with the rounds that are left.
unfoldable pub sum_words : ℕ → ℕ → Block → ℕ → ℕ
sum_words zero i b sum = sum
sum_words (suc n) i b sum =
    sum_words n (i + 1) b (if i == 2 then sum else (sum + get32 b (4 * i)) % 2 ^ 32)

abbrev pub words_per_block : ℕ
words_per_block = 1024

-- `~(sum - 1)` on 32 bits.
unfoldable pub checksum : Block → ℕ
checksum b = 2 ^ 32 - 1 - (sum_words words_per_block 0 b 0 + 2 ^ 32 - 1) % 2 ^ 32

-- `write_block` of the backing store.
unfoldable pub store_block : ℕ → Block → Disk → Disk
store_block idx bytes disk i = if i == idx then bytes else disk i

-- SB_BLOCKNUM
abbrev pub sb_blocknum : ℕ → ℕ
sb_blocknum i = i * 16

-- The super block that `cache_flush` writes.
unfoldable pub next_super : Block → Block
next_super sb =
    let sb' = put32 sb sb_blockver ((get32 sb sb_blockver + 1) % 2 ^ 32) in
    put32 sb' sb_checksum (checksum sb')

-- The other super block's place; the first one if none was chosen yet (-1).
unfoldable pub next_which : Option ℕ → ℕ
next_which none = 0
next_which (some w) = (w + 1) % nsblocks

-- The writes of `cache_flush` to the backing store, in order: the dirty entries, then the super
-- block. An empty cache writes nothing.
unfoldable pub dirty_writes : List Datum → List (ℕ × Block)
dirty_writes [] = []
dirty_writes (d ∷ ds) =
    if d.dt_dirty then (d.dt_blockaddr, d.dt_data) ∷ dirty_writes ds else dirty_writes ds

unfoldable pub flush_writes : Fs → List (ℕ × Block)
flush_writes s = elim s.cache [
  | [] ↦ []
  | d ∷ ds ↦
      dirty_writes (d ∷ ds)
      ++ (sb_blocknum (next_which s.which_super), next_super s.super_block) ∷ []
]

unfoldable pub apply_writes : List (ℕ × Block) → Disk → Disk
apply_writes [] disk = disk
apply_writes ((idx, bytes) ∷ ws) disk = apply_writes ws (store_block idx bytes disk)

-- `cache_flush`. Both tests at its end flush the freemap of the blocks.
unfoldable pub cache_flush : Fs → Fs
unfolding flush_writes apply_writes
cache_flush s =
    let blocks = Freemap.flush (Freemap.flush s.block_freemap) in
    elim s.cache [
      | [] ↦ record s { block_freemap = blocks }
      | d ∷ ds ↦ record s {
        cache = [];
        disk = apply_writes (flush_writes s) s.disk;
        super_block = next_super s.super_block;
        which_super = some (next_which s.which_super);
        block_freemap = blocks;
      }
    ]
