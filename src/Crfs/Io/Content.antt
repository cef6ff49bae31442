-- ===== src/Crfs/Io/Content.antt =====
-- What crfs_read returns, against the chain of the file's blocks.
use cobalt_rom.Prelude.{
  ℕ, zero, suc, ◌+◌, ◌-◌, ◌*◌, ◌/◌, ◌%◌, ◌≤◌, ◌<◌, ◌≡◌, refl, sym, ◌∙◌, ap, inl, inr, true, false,
  ◌&&◌, Bool-cases, ltb, leb, ◌==◌, ==_iff, if◌then◌else◌, arith,
}
use cobalt_rom.Crfs.Layout.{Block, copy, get16, fb_data, fb_next, fblock_data}
use cobalt_rom.Crfs.State.{Fs}
use cobalt_rom.Crfs.Cache.View.{view, read_block-view, view-read_block}
use cobalt_rom.Crfs.File.{Open, next_fblock}
use cobalt_rom.Crfs.Free.Chain.{next_in}
use cobalt_rom.Crfs.Io.{Reading, get_data, drain_block}

-- The block that comes `i` blocks after `b`.
abbrev pub ahead : ℕ → Fs → ℕ → ℕ
ahead zero s b = b
ahead (suc i) s b = next_in s (ahead i s b)

-- The byte at place `j` of the data that starts in block `b`.
abbrev pub byte_at : Fs → ℕ → ℕ → ℕ
byte_at s b j = view s (ahead (j / fblock_data) s b) (fb_data + j % fblock_data)

-- The buffer `old` with the `n` bytes of the data from place `j` of block `b` on.
abbrev pub IsRead : Fs → ℕ → ℕ → ℕ → Block → Block → Type 0
IsRead s b j n old out = (k : ℕ) → out k ≡ (if ltb k n then byte_at s b (j + k) else old k)

-- A read of the data from place `j` of block `b` on that stands at place `j + done`: its file has
-- the block there, and the blocks of the file system are those of `s`.
abbrev pub Reads : Fs → ℕ → ℕ → ℕ → Block → Reading → Open → Type 0
Reads s b j i old t o =
    (o.file.curblock ≡ ahead i s b)
    × (o.file.fblock ≡ view s (ahead i s b))
    × ((n : ℕ) → view o.fs n ≡ view s n)
    × IsRead s b j t.done old t.out

next-Reads :
    (s : Fs) (b j i : ℕ) (old : Block) (t : Reading) (o : Open)
    → Reads s b j i old t o
    → (ahead (suc i) s b == 0) ≡ false
    → ((next_fblock o).0 ≡ true) × Reads s b j (suc i) old t (next_fblock o).1
unfolding next_fblock
next-Reads s b j i old t o h more = rw stop (
  refl,
  (
    link,
    read_block-view next o.fs ∙ h.2 next ∙ ap (view s) link,
    (λ n. view-read_block next n o.fs ∙ h.2 n),
    h.3,
  ),
)
  where
    next : ℕ
    next = get16 o.file.fblock fb_next

    link : next ≡ ahead (suc i) s b
    link = ap (λ (f : Block). get16 f fb_next) h.1

    stop : (next == 0) ≡ false
    stop = ap (λ n. n == 0) link ∙ more

end-Reads :
    (s : Fs) (b j i : ℕ) (old : Block) (t : Reading) (o : Open)
    → Reads s b j i old t o
    → (ahead (suc i) s b == 0) ≡ true
    → next_fblock o ≡ (false, o)
unfolding next_fblock
end-Reads s b j i old t o h more =
    let stop : (get16 o.file.fblock fb_next == 0) ≡ true =
      ap (λ (f : Block). get16 f fb_next == 0) h.1 ∙ more in
    rw stop refl

same_block :
    (j done n i k : ℕ)
    → (j + done) / fblock_data ≡ i
    → (j + done) % fblock_data + n ≤ fblock_data
    → done ≤ k
    → k < done + n
    → ((j + k) / fblock_data ≡ i) × ((j + k) % fblock_data ≡ (j + done) % fblock_data + (k - done))
same_block j done n i k at fits ge lt =
    (omega (arith, at, fits, ge, lt), omega (arith, at, fits, ge, lt))

-- Bytes of one block.
pub get_data-Reads :
    (s : Fs) (b j i n : ℕ) (old : Block) (t : Reading) (o : Open)
    → Reads s b j i old t o
    → (j + t.done) / fblock_data ≡ i
    → (j + t.done) % fblock_data + n ≤ fblock_data
    → Reads s b j i old
        (get_data ((j + t.done) % fblock_data) n t o).0
        (get_data ((j + t.done) % fblock_data) n t o).1
unfolding get_data copy
get_data-Reads s b j i n old t o h at fits = (h.0, h.1, h.2, copied)
  where
    off : ℕ
    off = (j + t.done) % fblock_data

    copied :
        (k : ℕ)
        → (if leb t.done k && ltb k (t.done + n)
            then o.file.fblock (fb_data + off + (k - t.done))
            else t.out k)
          ≡ (if ltb k (t.done + n) then byte_at s b (j + k) else old k)
    copied k = elim (Bool-cases (ltb k t.done)) [
      | inl e ↦ ground (arith, e, h.3 k)
      | inr e ↦ elim (Bool-cases (ltb k (t.done + n))) [
        | inl f ↦
            let here = same_block j t.done n i k at fits (ground (arith, e)) (ground (arith, f)) in
            let inside : leb t.done k ≡ true = ground (arith, e) in
            rw (inside, f)
              (ap (λ (x : Block). x (fb_data + off + (k - t.done))) h.1
                ∙ ap (view s (ahead i s b)) (omega (arith, here.1))
                ∙ ap (λ x. view s (ahead x s b) (fb_data + (j + k) % fblock_data)) (sym here.0))
        | inr f ↦
            let outside : (leb t.done k && ltb k (t.done + n)) ≡ false = ground (arith, f) in
            rw (outside, f) (let x = h.3 k in rw e at x)
      ]
    ]

-- Each block that a part of the data up to place `total` is in belongs to the chain.
abbrev pub HasBlocks : Fs → ℕ → ℕ → Type 0
HasBlocks s b total = (q : ℕ) → q * fblock_data < total → (ahead q s b == 0) ≡ false

-- A read that stands at the start of a block, or has all that it is to read.
abbrev pub Stands : Fs → ℕ → ℕ → Block → ℕ → Reading → Open → Type 0
Stands s b j old size t o =
    (i : ℕ) × Reads s b j i old t o
    × (t.failed ≡ false)
    × (t.done + t.left ≡ size)
    × (0 < t.left → j + t.done ≡ i * fblock_data)

pub drain_block-Stands :
    (s : Fs) (b j i : ℕ) (old : Block) (size : ℕ) (t : Reading) (o : Open)
    → Reads s b j i old t o
    → (j + t.done) / fblock_data ≡ i
    → fblock_data - (j + t.done) % fblock_data ≤ t.left
    → t.done + t.left ≡ size
    → HasBlocks s b (j + size)
    → Stands s b j old size
        (drain_block ((j + t.done) % fblock_data) t o).0
        (drain_block ((j + t.done) % fblock_data) t o).1
      × (t.done < (drain_block ((j + t.done) % fblock_data) t o).0.done)
unfolding drain_block
drain_block-Stands s b j i old size t o h at le total has =
    elim (Bool-cases (ahead (suc i) s b == 0)) [
      | inr more ↦
          let next = next-Reads s b j i old t1 o1 got more in
          rw next.0 ((suc i, next.1, refl, whole, λ lt. whole_blocks), grows)
      | inl last ↦
          let stop = end-Reads s b j i old t1 o1 got last in
          let done : t1.left ≡ 0 = none_left last in
          let full : (t1.left == 0) ≡ true = ground (arith, done) in
          rw (stop, full) ((i, got, refl, whole, λ lt. absurd (omega (arith, lt, done))), grows)
    ]
  where
    off : ℕ
    off = (j + t.done) % fblock_data

    t1 : Reading
    t1 = (get_data off (fblock_data - off) t o).0

    o1 : Open
    o1 = (get_data off (fblock_data - off) t o).1

    got : Reads s b j i old t1 o1
    got = get_data-Reads s b j i (fblock_data - off) old t o h at (omega arith)

    left_lem : t1.left ≡ t.left - (fblock_data - off)
    left_lem = unfold get_data in refl

    done_lem : t1.done ≡ t.done + (fblock_data - off)
    done_lem = unfold get_data in refl

    whole : t1.done + t1.left ≡ size
    whole = omega (arith, left_lem, done_lem, total, le)

    grows : t.done < t1.done
    grows = omega (arith, done_lem)

    whole_blocks : j + t1.done ≡ suc i * fblock_data
    whole_blocks = omega (arith, done_lem, at)

    none_left : (ahead (suc i) s b == 0) ≡ true → t1.left ≡ 0
    none_left last = elim (Bool-cases (t1.left == 0)) [
      | inl z ↦ (==_iff t1.left 0).0 z
      | inr z ↦
          let lt : suc i * fblock_data < j + size = ground (arith, z, whole, whole_blocks) in
          absurd (ground (arith, last, has (suc i) lt))
    ]
