-- ===== src/Crfs/Phased/Crash.antt =====
-- What a crash leaves of the file system, after any calls of `crfs_create` and `crfs_mkdir` and in
-- the middle of the flush that follows them.
use cobalt_rom.Prelude.{ℕ, ◌<◌, ◌≡◌, ◌⊎◌, ◌∙◌, ap, Bool, true, false, some, List, [], ◌∷◌, inl, inr}
use cobalt_rom.Crfs.State.{Disk, Fs}
use cobalt_rom.Crfs.Cache.{cache_flush, sb_blocknum, block_is_dirty}
use cobalt_rom.Crfs.Cache.Flush.{crashed, crashed_cases, crashed-super_block}
use cobalt_rom.Crfs.Create.{create, mkdir}
use cobalt_rom.Crfs.Phased.{IsPhased}
use cobalt_rom.Crfs.Phased.Create.{Keeps-create, Keeps-mkdir}

-- A call on a path.
pub data Update : Type 0 where
  make_file make_dir : List ℕ → Update

-- The state after a call, whatever it returns.
abbrev pub after : Update → Fs → Fs
after (make_file path) s = (create path s).1
after (make_dir path) s = (mkdir path s).1

abbrev pub after_all : List Update → Fs → Fs
after_all [] s = s
after_all (u ∷ us) s = after_all us (after u s)

module _ (committed : ℕ → Bool) where
  -- `crfs_create` and `crfs_mkdir`, also when they fail, keep the commit phased: they leave the
  -- backing store and the choice of the super block as they are, make no committed block available
  -- and make none dirty.
  pub after_all-IsPhased :
      (us : List Update) (start s : Fs)
      → IsPhased committed start s
      → IsPhased committed start (after_all us s)
  after_all-IsPhased [] start s p = p
  after_all-IsPhased (make_file path ∷ us) start s p =
      after_all-IsPhased us start _ ((Keeps-create committed start path).at s p).0
  after_all-IsPhased (make_dir path ∷ us) start s p =
      after_all-IsPhased us start _ ((Keeps-mkdir committed start path).at s p).0

  -- Let no committed block be available or dirty. If the flush after any calls of `crfs_create` and
  -- `crfs_mkdir` is cut short after `k` writes, either every committed block is on the backing
  -- store as before the calls, or the flush had made all its writes.
  pub crash_old_or_new :
      (us : List Update) (s : Fs) (k : ℕ)
      → IsPhased committed s s
      → ((j : ℕ) → committed j ≡ true → crashed k (after_all us s) j ≡ s.disk j)
        ⊎ (crashed k (after_all us s) ≡ (cache_flush (after_all us s)).disk)
  crash_old_or_new us s k p = split (crashed_cases k (after_all us s) q.coherent)
    where
      q : IsPhased committed s (after_all us s)
      q = after_all-IsPhased us s s p

      split :
          ((j : ℕ)
              → block_is_dirty j (after_all us s) ≡ false
              → crashed k (after_all us s) j ≡ (after_all us s).disk j)
            ⊎ (crashed k (after_all us s) ≡ (cache_flush (after_all us s)).disk)
          → ((j : ℕ) → committed j ≡ true → crashed k (after_all us s) j ≡ s.disk j)
            ⊎ (crashed k (after_all us s) ≡ (cache_flush (after_all us s)).disk)
      split (inl old) = inl (λ j c. old j (q.untouched j c) ∙ ap (λ (d : Disk). d j) q.stored)
      split (inr new) = inr new

  -- Wherever that flush is cut short, the super block in force before the calls stays on the
  -- backing store, if its block is a committed one.
  pub crash_keeps_super_block :
      (us : List Update) (s : Fs) (k w : ℕ)
      → IsPhased committed s s
      → s.which_super ≡ some w
      → w < 2
      → committed (sb_blocknum w) ≡ true
      → crashed k (after_all us s) (sb_blocknum w) ≡ s.disk (sb_blocknum w)
  crash_keeps_super_block us s k w p e h c =
      crashed-super_block k (after_all us s) w q.coherent (q.chosen ∙ e) h
        (q.untouched (sb_blocknum w) c)
      ∙ ap (λ (d : Disk). d (sb_blocknum w)) q.stored
    where
      q : IsPhased committed s (after_all us s)
      q = after_all-IsPhased us s s p
