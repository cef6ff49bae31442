-- ===== src/Crfs/Inode/Lookup.antt =====
-- `crfs_lookup_inode` after `crfs_write_inode`.
use cobalt_rom.Prelude.{
  ℕ, ◌%◌, ◌<◌, ◌≡◌, refl, ◌∙◌, ap, ◌==◌, Bool-cases, Option-cases, inl, inr, if◌then◌else◌, arith,
}
use mathlib.Core.Path.{subst}
use cobalt_rom.Crfs.Layout.{Block, put_inode, Inode, itable_ninodes, get_inode}
use cobalt_rom.Crfs.Layout.Fields.{Fits, get16-put16_self, get_inode-put_inode_self}
use cobalt_rom.Crfs.State.{Fs, Result, ok, err}
use cobalt_rom.Crfs.Monad.{M, and_then}
use cobalt_rom.Crfs.Cache.{read_block, write_block, cache_add, block_is_dirty}
use cobalt_rom.Crfs.Cache.View.{view, read_block-view, view-write_block}
use cobalt_rom.Crfs.Inode.{
  next_block, alloc_block, unmark_block, itable_slot, itable_blocknum, set_itable_blocknum,
  lookup_inode, new_itable, copied_itable, old_itable, itable_for_write, write_inode,
}

-- What holds of a call's result and of the state after it, if the call succeeds.
abbrev OkWith : {A : Type 0} → (A → Fs → Type 0) → Result A × Fs → Type 0
OkWith Q (ok a, s) = Q a s
OkWith Q (err e, s) = Unit {0}

OkWith-and_then :
    {A B : Type 0} (Q : A → Fs → Type 0) (R : B → Fs → Type 0) (r : Result A × Fs) (k : A → M Fs B)
    → OkWith Q r
    → ((a : A) (s : Fs) → Q a s → OkWith R (k a s))
    → OkWith R (and_then r k)
OkWith-and_then Q R (ok a, s) k q h = h a s q
OkWith-and_then Q R (err e, s) k q h = tt

-- The super block names the table's block.
Names : ℕ → ℕ × Block → Fs → Type 0
Names inum t s = itable_blocknum inum s ≡ t.0

alloc_block-fits : (s : Fs) → OkWith (λ b s'. b < 65536) (alloc_block s)
unfolding alloc_block
alloc_block-fits s = elim (Option-cases (next_block s).0) [
  | inl e ↦ rw e tt
  | inr (b, e) ↦ rw e (omega arith)
]

blocknum-set :
    (inum b : ℕ) (s : Fs) → b < 65536 → itable_blocknum inum (set_itable_blocknum inum b s) ≡ b
unfolding itable_blocknum set_itable_blocknum
blocknum-set inum b s h = get16-put16_self s.super_block (itable_slot inum) b h

blocknum-read_block :
    (inum j : ℕ) (s : Fs) → itable_blocknum inum (read_block j s).1 ≡ itable_blocknum inum s
unfolding itable_blocknum read_block cache_add
blocknum-read_block inum j s = ground arith

blocknum-write_block :
    (inum j : ℕ) (b : Block) (s : Fs)
    → itable_blocknum inum (write_block j b s) ≡ itable_blocknum inum s
unfolding itable_blocknum write_block cache_add
blocknum-write_block inum j b s = ground arith

new_itable-Names : (inum : ℕ) (s : Fs) → OkWith (Names inum) (new_itable inum s)
unfolding new_itable Names
new_itable-Names inum s =
    OkWith-and_then (λ b s'. b < 65536) (Names inum) (alloc_block s) _ (alloc_block-fits s)
      (λ b s' h. blocknum-set inum b s' h)

copied_itable-Names :
    (inum old : ℕ) (it : Block) (s : Fs) → OkWith (Names inum) (copied_itable inum old it s)
unfolding copied_itable Names
copied_itable-Names inum old it s =
    OkWith-and_then (λ b s'. b < 65536) (Names inum) (alloc_block s) _ (alloc_block-fits s)
      (λ b s' h. blocknum-set inum b (unmark_block old s') h)

old_itable-Names :
    (inum b : ℕ) (s : Fs) → itable_blocknum inum s ≡ b → OkWith (Names inum) (old_itable inum b s)
unfolding old_itable Names
old_itable-Names inum b s e = elim (Bool-cases (block_is_dirty b (read_block b s).1)) [
  | inl d ↦ rw d (blocknum-read_block inum b s ∙ e)
  | inr d ↦ rw d (copied_itable-Names inum b (read_block b s).0 (read_block b s).1)
]

itable_for_write-Names : (inum : ℕ) (s : Fs) → OkWith (Names inum) (itable_for_write inum s)
unfolding itable_for_write
itable_for_write-Names inum s = elim (Bool-cases (itable_blocknum inum s == 0)) [
  | inl e ↦ rw e (new_itable-Names inum s)
  | inr e ↦ rw e (old_itable-Names inum (itable_blocknum inum s) s refl)
]

-- What `crfs_lookup_inode` returns.
lookup_inode-view :
    (inum : ℕ) (s : Fs)
    → (lookup_inode inum s).0
      ≡ ok (get_inode (view s (itable_blocknum inum s)) (inum % itable_ninodes))
unfolding lookup_inode
lookup_inode-view inum s =
    ap (λ (b : Block). ok (get_inode b (inum % itable_ninodes)))
      (read_block-view (itable_blocknum inum s) s)

Reads : Inode → Unit {0} → Fs → Type 0
Reads inode u s = (lookup_inode inode.in_inode s).0 ≡ ok inode

written-Reads :
    (inode : Inode) (b : ℕ) (it : Block) (s : Fs)
    → Fits inode
    → itable_blocknum inode.in_inode s ≡ b
    → (lookup_inode inode.in_inode
        (write_block b (put_inode it (inode.in_inode % itable_ninodes) inode) s)).0
      ≡ ok inode
written-Reads inode b it s f e =
    lookup_inode-view inode.in_inode (write_block b table s)
    ∙ rw (blocknum-write_block inode.in_inode b table s, e, seen)
        (ap (λ (n : Inode). ok n)
          (get_inode-put_inode_self it (inode.in_inode % itable_ninodes) inode f))
  where
    table : Block
    table = put_inode it (inode.in_inode % itable_ninodes) inode

    same : (x : Block) → (if b == b then table else x) ≡ table
    same x = ground arith

    seen : view (write_block b table s) b ≡ table
    seen = view-write_block b b table s ∙ same (view s b)

write_inode-Reads :
    (inode : Inode) (s : Fs) → Fits inode → OkWith (Reads inode) (write_inode inode s)
unfolding write_inode Reads Names
write_inode-Reads inode s f =
    OkWith-and_then (Names inode.in_inode) (Reads inode) (itable_for_write inode.in_inode s) _
      (itable_for_write-Names inode.in_inode s) (λ t s' h. written-Reads inode t.0 t.1 s' f h)

-- After a `crfs_write_inode` that returns 0, `crfs_lookup_inode` returns the inode that was
-- written, if its fields fit their widths.
pub lookup_inode-write_inode :
    (inode : Inode) (s s' : Fs)
    → Fits inode
    → write_inode inode s ≡ (ok tt, s')
    → (lookup_inode inode.in_inode s').0 ≡ ok inode
unfolding Reads
lookup_inode-write_inode inode s s' f e =
    subst (λ (r : Result (Unit {0}) × Fs). OkWith (Reads inode) r) e (write_inode-Reads inode s f)
