-- ===== src/Crfs/Io/Place.antt =====
-- What the reading of written bytes uses: the place of an inode table, and the first block's bytes.
use cobalt_rom.Prelude.{
  ℕ, zero, suc, ◌+◌, ◌-◌, ◌/◌, ◌%◌, ◌≤◌, ◌<◌, ◌≡◌, refl, ◌∙◌, ap, true, false, ◌&&◌, ltb, leb, ◌==◌,
  arith,
}
use cobalt_rom.Crfs.Layout.{Block, copy, fb_data, fblock_data}
use cobalt_rom.Crfs.State.{Fs}
use cobalt_rom.Crfs.Inode.{itable_blocknum}
use cobalt_rom.Crfs.Cache.{read_block}
use cobalt_rom.Crfs.Cache.View.{view}
use cobalt_rom.Crfs.Cache.{cache_add}
use cobalt_rom.Crfs.Io.Content.{ahead, byte_at, HasBlocks}

pub super_block-read_block : (idx : ℕ) (s : Fs) → (read_block idx s).1.super_block ≡ s.super_block
unfolding read_block cache_add
super_block-read_block idx s = ground arith

pub itable_blocknum-super_block :
    (inum : ℕ) (s s' : Fs)
    → s'.super_block ≡ s.super_block
    → itable_blocknum inum s' ≡ itable_blocknum inum s
unfolding itable_blocknum
itable_blocknum-super_block inum s s' e = rw e refl

pub one_block : (s : Fs) (b n : ℕ) → (b == 0) ≡ false → n ≤ fblock_data → HasBlocks s b n
one_block s b n h le zero lt = h
one_block s b n h le (suc q) lt = absurd (omega (arith, lt, le))

pub first_block : (s : Fs) (b n : ℕ) → n < fblock_data → byte_at s b n ≡ view s b (fb_data + n)
first_block s b n lt =
    let here : n / fblock_data ≡ 0 = omega (arith, lt) in
    let place : n % fblock_data ≡ n = omega (arith, lt) in
    ap (λ q. view s (ahead q s b) (fb_data + n % fblock_data)) here
    ∙ ap (λ m. view s b (fb_data + m)) place

pub copied : (b src : Block) (at n k : ℕ) → k < n → copy b at src n (at + k) ≡ src k
unfolding copy
copied b src at n k lt =
    let inside : (leb at (at + k) && ltb (at + k) (at + n)) ≡ true = ground (arith, lt) in
    let place : at + k - at ≡ k = omega arith in rw (inside, place) refl
