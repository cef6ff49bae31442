-- ===== src/Crfs/Io/Whole.antt =====
-- A whole crfs_read, block after block.
use cobalt_rom.Prelude.{
  ℕ, zero, suc, ◌+◌, ◌-◌, ◌*◌, ◌/◌, ◌%◌, ◌^◌, ◌≤◌, ◌<◌, ◌≡◌, refl, sym, ◌∙◌, ap, inl, inr, true,
  false, not, ◌&&◌, Bool-cases, ltb, leb, ◌==◌, if◌then◌else◌, arith,
}
use mathlib.Core.Path.{subst}
use cobalt_rom.Crfs.Layout.{Block, get16, fb_data, fb_next, fblock_data, get_inode, itable_ninodes}
use cobalt_rom.Crfs.State.{Fs, Result, ok}
use cobalt_rom.Crfs.Monad.{run}
use cobalt_rom.Crfs.Inode.{lookup_inode, itable_blocknum}
use cobalt_rom.Crfs.Cache.{read_block}
use cobalt_rom.Crfs.Cache.View.{view, read_block-view, view-read_block}
use cobalt_rom.Crfs.File.{Open, file_magic, on_fs}
use cobalt_rom.Crfs.Free.Chain.{next_in}
use cobalt_rom.Crfs.Io.{Reading, get_data, drain_block, read_blocks, read_rest, read_data, read}
use cobalt_rom.Crfs.Io.Content.{
  ahead, byte_at, IsRead, Reads, HasBlocks, Stands, get_data-Reads, drain_block-Stands,
}

read_blocks-more :
    (n : ℕ) (t : Reading) (o : Open)
    → (leb fblock_data t.left && not t.failed) ≡ true
    → read_blocks (suc n) t o ≡ read_blocks n (drain_block 0 t o).0 (drain_block 0 t o).1
unfolding read_blocks
read_blocks-more n t o h = rw (read_blocks, h) refl

read_blocks-stop :
    (n : ℕ) (t : Reading) (o : Open)
    → (leb fblock_data t.left && not t.failed) ≡ false
    → read_blocks (suc n) t o ≡ (t, o)
unfolding read_blocks
read_blocks-stop n t o h = rw (read_blocks, h) refl

-- The end of the complete blocks: less than a block is left, or nothing.
abbrev Drained : Fs → ℕ → ℕ → Block → ℕ → Reading × Open → Type 0
Drained s b j old size r = Stands s b j old size r.0 r.1 × (r.0.left < fblock_data) × (0 < r.0.done)

read_blocks-Drained :
    (n : ℕ) (s : Fs) (b j : ℕ) (old : Block) (size : ℕ) (t : Reading) (o : Open)
    → Stands s b j old size t o
    → t.left < n
    → 0 < t.done
    → HasBlocks s b (j + size)
    → Drained s b j old size (read_blocks n t o)
read_blocks-Drained zero s b j old size t o h fuel pos has = absurd (omega (arith, fuel))
read_blocks-Drained (suc n) s b j old size t o (i, h, going, total, start) fuel pos has =
    elim (Bool-cases (leb fblock_data t.left)) [
      | inr e ↦
          let stop : (leb fblock_data t.left && not t.failed) ≡ false = rw e refl in
          subst (Drained s b j old size) (sym (read_blocks-stop n t o stop))
            ((i, h, going, total, start), ground (arith, e), pos)
      | inl e ↦
          let more : (leb fblock_data t.left && not t.failed) ≡ true = rw (e, going) refl in
          let big : fblock_data ≤ t.left = ground (arith, e) in
          let here : j + t.done ≡ i * fblock_data = start (omega (arith, big)) in
          let off : (j + t.done) % fblock_data ≡ 0 = omega (arith, here) in
          let round =
            subst
              (λ k.
                Stands s b j old size (drain_block k t o).0 (drain_block k t o).1
                × (t.done < (drain_block k t o).0.done))
              off
              (drain_block-Stands s b j i old size t o h (omega (arith, here)) (omega (arith, big))
                total has) in
          subst (Drained s b j old size) (sym (read_blocks-more n t o more)) (
            read_blocks-Drained n s b j old size (drain_block 0 t o).0 (drain_block 0 t o).1 round.0
              (omega (arith, round.1, round.0.3, total, fuel)) (omega (arith, round.1)) has)
    ]

-- The last part of a read, in the first block or in a later one.
read_rest-IsRead :
    (s : Fs) (b j i off : ℕ) (old : Block) (size : ℕ) (t : Reading) (o : Open)
    → Reads s b j i old t o
    → t.done + t.left ≡ size
    → (0 < t.left
        → ((j + t.done) / fblock_data ≡ i)
          × ((j + t.done) % fblock_data + t.left ≤ fblock_data)
          × ((if t.done == 0 then off else 0) ≡ (j + t.done) % fblock_data))
    → ((read_rest off t o).0.done ≡ size) × IsRead s b j size old (read_rest off t o).0.out
unfolding read_rest
read_rest-IsRead s b j i off old size t o h total last = elim (Bool-cases (t.left == 0)) [
  | inl z ↦
      let done : t.done ≡ size = ground (arith, z, total) in
      rw z (done, subst (λ n. IsRead s b j n old t.out) done h.3)
  | inr z ↦
      let here = last (ground (arith, z)) in
      let got = get_data-Reads s b j i t.left old t o h here.0 here.1 in
      rw (z, here.2)
        (unfold get_data in
          (
            total,
            subst (λ n. IsRead s b j n old (get_data ((j + t.done) % fblock_data) t.left t o).0.out)
                total got.3,
          ))
]

-- Where the loop has ended.
rest-IsRead :
    (s : Fs) (b j off : ℕ) (old : Block) (size : ℕ) (r : Reading × Open)
    → Drained s b j old size r
    → ((read_rest off r.0 r.1).0.done ≡ size) × IsRead s b j size old (read_rest off r.0 r.1).0.out
rest-IsRead s b j off old size (t, o) ((i, h, going, total, start), small, pos) =
    read_rest-IsRead s b j i off old size t o h total (λ lt. (
      omega (arith, start lt),
      omega (arith, start lt, small),
      (let z : (t.done == 0) ≡ false = ground (arith, pos) in rw z (omega (arith, start lt))),
    ))

-- The whole transfer of crfs_read, after its tests.
read_data-IsRead :
    (size : ℕ) (buf : Block) (o : Open)
    → o.file.fblock ≡ view o.fs o.file.curblock
    → HasBlocks o.fs o.file.curblock (o.file.fpos % fblock_data + size)
    → (out : Block) × ((read_data buf size o).0 ≡ (size, out))
      × IsRead o.fs o.file.curblock (o.file.fpos % fblock_data) size buf out
unfolding read_data
read_data-IsRead size buf o loaded has = elim (Bool-cases (leb (fblock_data - j) size)) [
  | inr short ↦
      let last =
        read_rest-IsRead o.fs b j 0 j buf size t o begun (omega arith)
          (λ lt. (omega arith, ground (arith, short), omega arith)) in
      rw short (_, ap (λ n. (n, (read_rest j t o).0.out)) last.0, last.1)
  | inl long ↦
      let off : (j + 0) % fblock_data ≡ j = omega arith in
      let first =
        subst
          (λ k.
            Stands o.fs b j buf size (drain_block k t o).0 (drain_block k t o).1
            × (0 < (drain_block k t o).0.done))
          off
          (drain_block-Stands o.fs b j 0 buf size t o begun (omega arith) (ground (arith, long))
            (omega arith) has) in
      let all =
        read_blocks-Drained ((drain_block j t o).0.left + 1) o.fs b j buf size (drain_block j t o).0
          (drain_block j t o).1 first.0 (omega arith) first.1 has in
      let last = rest-IsRead o.fs b j j buf size drained all in
      let out : Block = (read_rest j drained.0 drained.1).0.out in
      rw (long, all.0.2) (out, ap (λ n. (n, out)) last.0, last.1)
]
  where
    j : ℕ
    j = o.file.fpos % fblock_data

    b : ℕ
    b = o.file.curblock

    t : Reading
    t = record { left = size; done = 0; failed = false; out = buf }

    drained : Reading × Open
    drained =
        read_blocks ((drain_block j t o).0.left + 1) (drain_block j t o).0 (drain_block j t o).1

    begun : Reads o.fs b j 0 buf t o
    begun = (refl, loaded, (λ n. refl), λ k. ground arith)

ahead-view : (i b : ℕ) (s s' : Fs) → ((n : ℕ) → view s' n ≡ view s n) → ahead i s' b ≡ ahead i s b
ahead-view zero b s s' same = refl
ahead-view (suc i) b s s' same =
    let e = ahead-view i b s s' same in
    ap (λ n. next_in s' n) e ∙ ap (λ (f : Block). get16 f fb_next) (same (ahead i s b))

byte_at-view :
    (b j : ℕ) (s s' : Fs) → ((n : ℕ) → view s' n ≡ view s n) → byte_at s' b j ≡ byte_at s b j
byte_at-view b j s s' same =
    ap (λ n. view s' n (fb_data + j % fblock_data)) (ahead-view (j / fblock_data) b s s' same)
    ∙ ap (λ (f : Block). f (fb_data + j % fblock_data)) (same (ahead (j / fblock_data) s b))

-- The size that the inode of an open file has.
abbrev pub file_size : Open → ℕ
file_size o =
    (get_inode (view o.fs (itable_blocknum o.file.inode o.fs))
      (o.file.inode % itable_ninodes)).in_fsize

-- What a read of `size` bytes is cut down to.
abbrev pub readable : ℕ → Open → ℕ
readable size o = if ltb (file_size o) (o.file.fpos + size) then file_size o - o.file.fpos else size

-- On a valid file whose position is before its end, and whose current block is loaded, crfs_read
-- of `size` bytes gives the bytes of the chain of blocks from the position on, up to the end of
-- the file, and leaves the rest of the buffer; the chain has the blocks that these bytes are in.
pub read-IsRead :
    (size : ℕ) (buf : Block) (o : Open)
    → o.file.magic ≡ file_magic
    → (o.file.curblock == 0) ≡ false
    → o.file.fblock ≡ view o.fs o.file.curblock
    → o.file.fpos < file_size o
    → o.file.fpos + size < 2 ^ 32
    → HasBlocks o.fs o.file.curblock (o.file.fpos % fblock_data + readable size o)
    → (out : Block) × ((read buf size o).0 ≡ ok (readable size o, out))
      × IsRead o.fs o.file.curblock (o.file.fpos % fblock_data) (readable size o) buf out
read-IsRead size buf o mg cur loaded before small has = (
  got.0,
  ap (λ (r : Result (ℕ × Block) × Open). r.0) begun ∙ ap (λ (x : ℕ × Block). ok x) got.1,
  λ k.
      got.2 k
      ∙ ap (λ x. if ltb k (readable size o) then x else buf k)
          (byte_at-view o.file.curblock (o.file.fpos % fblock_data + k) o.fs looked.fs same),
)
  where
    idx : ℕ
    idx = itable_blocknum o.file.inode o.fs

    looked : Open
    looked = record o { fs = (read_block idx o.fs).1 }

    same : (n : ℕ) → view looked.fs n ≡ view o.fs n
    same n = view-read_block idx n o.fs

    begun : read buf size o ≡ run (read_data buf (readable size o)) looked
    begun =
        unfold read lookup_inode on_fs in
        let known : (o.file.magic == file_magic) ≡ true = ground (arith, mg) in
        let fits : (o.file.fpos + size) % 2 ^ 32 ≡ o.file.fpos + size = omega (arith, small) in
        let inside : leb (file_size o) o.file.fpos ≡ false = ground (arith, before) in
        rw (known, read_block-view idx o.fs, fits, inside, cur) refl

    got :
        (out : Block) × ((read_data buf (readable size o) looked).0 ≡ (readable size o, out))
        × IsRead looked.fs o.file.curblock (o.file.fpos % fblock_data) (readable size o) buf out
    got =
        read_data-IsRead (readable size o) buf looked (loaded ∙ sym (same o.file.curblock))
          (λ q lt. ap (λ n. n == 0) (ahead-view q o.file.curblock o.fs looked.fs same) ∙ has q lt)
