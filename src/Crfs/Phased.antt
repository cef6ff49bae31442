-- ===== src/Crfs/Phased.antt =====
-- The phased commit of cobalt_romfs/crfs_func.c, described at the head of that file: until the next
-- flush no block of the file system that is on the backing store is written.
pub mod Rules
pub mod Inode
pub mod Create
pub mod Crash
use cobalt_rom.Prelude.{ℕ, ◌*◌, ◌^◌, ◌<◌, ◌≡◌, Bool, true, false}
use cobalt_rom.Crfs.State.{Fs, Result, ok, err}
use cobalt_rom.Crfs.Freemap.Bit.{IsValid, busy}
use cobalt_rom.Crfs.Cache.{block_is_dirty}
use cobalt_rom.Crfs.Cache.Coherent.{IsCoherent}
use cobalt_rom.Crfs.Monad.{M}

abbrev pub Post : {A : Type 0} → (A → Type 0) → Result A → Type 0
Post Q (ok a) = Q a
Post Q (err e) = Unit {0}

-- A block that may be written.
abbrev pub Writable : (ℕ → Bool) → ℕ → Type 0
Writable committed j = committed j ≡ false

-- `start` is the state after the last flush, and `committed` says which blocks of its backing store
-- make up the file system.
module _ (committed : ℕ → Bool) (start : Fs) where
  -- The backing store and the choice of the super block are as they were, and the committed blocks
  -- cannot be handed out and have no dirty copy. The map of the blocks is well formed and small enough
  -- for block numbers of 16 bits.
  pub record IsPhased (s : Fs) : Type 0 where
    pub valid : IsValid s.block_freemap
    pub room : s.block_freemap.mapsize * 8 < 2 ^ 16
    pub coherent : IsCoherent s
    pub stored : s.disk ≡ start.disk
    pub chosen : s.which_super ≡ start.which_super
    pub taken : (j : ℕ) → committed j ≡ true → busy s.block_freemap j ≡ 1
    pub untouched : (j : ℕ) → committed j ≡ true → block_is_dirty j s ≡ false

  -- A call that keeps the commit phased, whether it fails or not; `Q` holds of its result.
  pub record Keeps {A : Type 0} (Q : A → Type 0) (m : M Fs A) : Type 0 where
    pub at : (s : Fs) → IsPhased s → IsPhased (m s).1 × Post Q (m s).0
