-- ===== src/Crfs/Free/Chain.antt =====
-- The loop of `mark_inode` and `unmark_inode` over the chain of a file's blocks.
use cobalt_rom.Prelude.{
  ℕ, zero, suc, ◌≤◌, ◌≡◌, refl, ◌∙◌, ap, false, some, List, [], ◌∷◌, ◌==◌, arith,
}
use cobalt_rom.Crfs.Layout.{Block, get16, fb_next}
use cobalt_rom.Crfs.State.{Fs}
use cobalt_rom.Crfs.Freemap.{Freemap}
use cobalt_rom.Crfs.Cache.{read_block}
use cobalt_rom.Crfs.Cache.View.{view, read_block-view, view-read_block, block_freemap-read_block}
use cobalt_rom.Crfs.Free.{on_block, each_fblock}

-- The block after `b` in its chain.
abbrev pub next_in : Fs → ℕ → ℕ
next_in s b = get16 (view s b) fb_next

-- From `b` on, `n` blocks follow each other, and then the chain ends.
unfoldable pub IsChain : ℕ → Fs → ℕ → Type 0
IsChain zero s b = b ≡ 0
IsChain (suc n) s b = (b == 0 ≡ false) × IsChain n s (next_in s b)

-- Those blocks.
abbrev pub chain_blocks : ℕ → Fs → ℕ → List ℕ
chain_blocks zero s b = []
chain_blocks (suc n) s b = b ∷ chain_blocks n s (next_in s b)

abbrev pub apply_all : (Freemap → ℕ → Freemap) → Freemap → List ℕ → Freemap
apply_all op m [] = m
apply_all op m (b ∷ bs) = apply_all op (op m b) bs

-- The state after one round.
abbrev step : (Freemap → ℕ → Freemap) → ℕ → Fs → Fs
step op b s = (read_block b (on_block op b s)).1

IsChain-view :
    (n b : ℕ) (s s' : Fs) → ((j : ℕ) → view s' j ≡ view s j) → IsChain n s b → IsChain n s' b
unfolding IsChain
IsChain-view zero b s s' same c = c
IsChain-view (suc n) b s s' same (ne, c) =
    (ne, rw (same b) (IsChain-view n (next_in s b) s s' same c))

chain_blocks-view :
    (n b : ℕ) (s s' : Fs)
    → ((j : ℕ) → view s' j ≡ view s j)
    → chain_blocks n s' b ≡ chain_blocks n s b
chain_blocks-view zero b s s' same = refl
chain_blocks-view (suc n) b s s' same =
    rw (same b) (ap (λ bs. b ∷ bs) (chain_blocks-view n (next_in s b) s s' same))

view-step : (op : Freemap → ℕ → Freemap) (b j : ℕ) (s : Fs) → view (step op b s) j ≡ view s j
unfolding on_block
view-step op b j s = view-read_block b j (on_block op b s)

block_freemap-step :
    (op : Freemap → ℕ → Freemap) (b : ℕ) (s : Fs)
    → (step op b s).block_freemap ≡ op s.block_freemap b
unfolding on_block
block_freemap-step op b s = block_freemap-read_block b (on_block op b s)

each_fblock-round :
    (op : Freemap → ℕ → Freemap) (n b : ℕ) (s : Fs)
    → b == 0 ≡ false
    → each_fblock op (suc n) b s ≡ each_fblock op n (next_in s b) (step op b s)
unfolding each_fblock on_block
each_fblock-round op n b s ne =
    rw (ne, each_fblock)
      (ap (λ (f : Block). each_fblock op n (get16 f fb_next) (step op b s))
        (read_block-view b (on_block op b s)))

each_fblock-stop :
    (op : Freemap → ℕ → Freemap) (fuel : ℕ) (s : Fs) → each_fblock op fuel 0 s ≡ some s
unfolding each_fblock
each_fblock-stop op zero s = refl
each_fblock-stop op (suc n) s = refl

-- On a chain that ends, as many rounds as it has blocks are enough: the loop marks or unmarks
-- each of its blocks, in their order, and changes the content of none.
pub each_fblock-IsChain :
    (op : Freemap → ℕ → Freemap) (n fuel b : ℕ) (s : Fs)
    → IsChain n s b
    → n ≤ fuel
    → (s' : Fs) × (each_fblock op fuel b s ≡ some s')
      × (s'.block_freemap ≡ apply_all op s.block_freemap (chain_blocks n s b))
      × ((j : ℕ) → view s' j ≡ view s j)
unfolding IsChain
each_fblock-IsChain op zero fuel b s c le = (s, rw c (each_fblock-stop op fuel s), refl, λ j. refl)
each_fblock-IsChain op (suc n) zero b s c le = absurd (omega (arith, le))
each_fblock-IsChain op (suc n) (suc fuel) b s (ne, c) le =
    let (s', done, map, same) =
      each_fblock-IsChain op n fuel (next_in s b) (step op b s)
        (IsChain-view n (next_in s b) s (step op b s) (λ j. view-step op b j s) c)
        (omega (arith, le)) in
    (
      s',
      each_fblock-round op fuel b s ne ∙ done,
      map
          ∙ rw
              (
                block_freemap-step op b s,
                chain_blocks-view n (next_in s b) s (step op b s) (λ j. view-step op b j s),
              )
              refl,
      λ j. same j ∙ view-step op b j s,
    )
