-- ===== src/Crfs/Io/First.antt =====
-- The first block of a new file whose inode's table is dirty, as after crfs_create.
use cobalt_rom.Prelude.{
  ℕ, ◌%◌, ◌^◌, ◌<◌, ◌≡◌, refl, ◌∙◌, ap, true, false, some, ◌==◌, ==_iff, arith,
}
use cobalt_rom.Crfs.Layout.{
  Block, Inode, zeros, put16, fb_offset, get_inode, put_inode, itable_ninodes,
}
use cobalt_rom.Crfs.Layout.Fields.{Fits, get_inode-put_inode_self}
use cobalt_rom.Crfs.State.{Fs, ok}
use cobalt_rom.Crfs.Freemap
use cobalt_rom.Crfs.Inode.{
  lookup_inode, write_inode, itable_blocknum, itable_for_write, old_itable, next_block,
}
use cobalt_rom.Crfs.Cache.{read_block, write_block, block_is_dirty}
use cobalt_rom.Crfs.Cache.View.{
  view, view-read_block, view-write_block, block_is_dirty-write_block, block_is_dirty-read_block,
  super_block-write_block,
}
use cobalt_rom.Crfs.File.{
  File, Open, file_magic, on_fs, on_file, ignore, append_fblock, append_block, end_old_fblock,
  link_fblock,
}
use cobalt_rom.Crfs.Io.Place.{super_block-read_block, itable_blocknum-super_block}

read_block-dirty : (i : ℕ) (s : Fs) → block_is_dirty i s ≡ true → read_block i s ≡ (view s i, s)
unfolding read_block block_is_dirty
read_block-dirty i s h = ground (arith, h)

-- The inode table of the inode `inum` is the dirty block `t`, with the inode `n`.
abbrev pub HasInode : ℕ → ℕ → Inode → Fs → Type 0
HasInode inum t n s =
    (itable_blocknum inum s ≡ t)
    × ((t == 0) ≡ false)
    × (block_is_dirty t s ≡ true)
    × (get_inode (view s t) (inum % itable_ninodes) ≡ n)

pub lookup_inode-HasInode :
    (inum t : ℕ) (n : Inode) (s : Fs) → HasInode inum t n s → lookup_inode inum s ≡ (ok n, s)
unfolding lookup_inode
lookup_inode-HasInode inum t n s h = rw (h.0, read_block-dirty t s h.2, h.3) refl

pub HasInode-write_block :
    (inum t b : ℕ) (n : Inode) (x : Block) (s : Fs)
    → (b == t) ≡ false
    → HasInode inum t n s
    → HasInode inum t n (write_block b x s)
HasInode-write_block inum t b n x s ne h = (
  itable_blocknum-super_block inum s (write_block b x s) (super_block-write_block b x s) ∙ h.0,
  h.1,
  block_is_dirty-write_block b t x s ∙ rw (ne, h.2) refl,
  ap (λ f. get_inode f (inum % itable_ninodes)) (view-write_block b t x s ∙ rw ne refl) ∙ h.3,
)

pub HasInode-read_block :
    (inum t b : ℕ) (n : Inode) (s : Fs) → HasInode inum t n s → HasInode inum t n (read_block b s).1
HasInode-read_block inum t b n s h = (
  itable_blocknum-super_block inum s (read_block b s).1 (super_block-read_block b s) ∙ h.0,
  h.1,
  block_is_dirty-read_block b t s ∙ h.2,
  ap (λ f. get_inode f (inum % itable_ninodes)) (view-read_block b t s) ∙ h.3,
)

-- The file system after crfs_write_inode of `n`.
abbrev pub with_inode : ℕ → ℕ → Inode → Fs → Fs
with_inode inum t n s = write_block t (put_inode (view s t) (inum % itable_ninodes) n) s

pub write_inode-HasInode :
    (inum t : ℕ) (old n : Inode) (s : Fs)
    → n.in_inode ≡ inum
    → HasInode inum t old s
    → write_inode n s ≡ (ok tt, with_inode inum t n s)
unfolding write_inode itable_for_write old_itable
write_inode-HasInode inum t old n s own h = rw (own, h.0, h.1, read_block-dirty t s h.2, h.2) refl

pub HasInode-with_inode :
    (inum t : ℕ) (old n : Inode) (s : Fs)
    → Fits n
    → HasInode inum t old s
    → HasInode inum t n (with_inode inum t n s)
HasInode-with_inode inum t old n s fits h = (
  itable_blocknum-super_block inum s (with_inode inum t n s) (super_block-write_block t _ s) ∙ h.0,
  h.1,
  block_is_dirty-write_block t t _ s ∙ rw ((==_iff t t).1 refl) refl,
  ap (λ f. get_inode f (inum % itable_ninodes))
        (view-write_block t t _ s ∙ rw ((==_iff t t).1 refl) refl)
      ∙ get_inode-put_inode_self (view s t) (inum % itable_ninodes) n fits,
)

pub view-with_inode :
    (inum t j : ℕ) (n : Inode) (s : Fs)
    → (t == j) ≡ false
    → view (with_inode inum t n s) j ≡ view s j
view-with_inode inum t j n s ne = view-write_block t j _ s ∙ rw ne refl

-- The file that crfs_open gives for an inode without blocks.
abbrev pub empty_file : ℕ → File
empty_file inum = record {
  magic = file_magic;
  inode = inum;
  curblock = 0;
  fpos = 0;
  nospc = false;
  fblock = zeros;
}

-- Its first block, when `b` is the block that is taken.
abbrev pub first_fblock : ℕ → Block
first_fblock b = link_fblock 0 b (put16 zeros fb_offset 0)

abbrev pub with_block : ℕ → Inode → Inode
with_block b n = record n { in_first = b; in_last = b }

HasInode-next_block :
    (inum t : ℕ) (n : Inode) (m : Freemap.Freemap) (s : Fs)
    → HasInode inum t n s
    → HasInode inum t n (record s { block_freemap = m })
unfolding block_is_dirty itable_blocknum
HasInode-next_block inum t n m s h = h

module _ (inum t b : ℕ) (n : Inode) (m : Freemap.Freemap) (s : Fs) (has : HasInode inum t n s)
    (own : n.in_inode ≡ inum) (fits : Fits n) (taken : Freemap.next s.block_freemap ≡ (some b, m))
    (pos : (b == 0) ≡ false) (small : b < 2 ^ 16) (apart : (b == t) ≡ false) where
  unfoldable pub new : Open
  new = record { fs = s; file = empty_file inum }

  s1 : Fs
  s1 = record s { block_freemap = m }

  pub s2 : Fs
  s2 = write_block b (first_fblock b) s1

  pub s3 : Fs
  s3 = with_inode inum t (with_block b n) s2

  has2 : HasInode inum t n s2
  unfolding s1 s2
  has2 =
      HasInode-write_block inum t b n (first_fblock b) s1 apart
        (HasInode-next_block inum t n m s has)

  pub has3 : HasInode inum t (with_block b n) s3
  unfolding s3
  has3 =
      HasInode-with_inode inum t n (with_block b n) s2
        (record {
          inode_fits = fits.inode_fits;
          first_fits = omega (arith, small);
          last_fits = omega (arith, small);
          fsize_fits = fits.fsize_fits;
          fmask_fits = fits.fmask_fits;
        })
        has2

  unfoldable pub appended : Open
  appended = record {
    fs = s3;
    file = record (empty_file inum) { curblock = b; fblock = first_fblock b };
  }

  pub append_new : append_fblock new ≡ (ok tt, appended)
  unfolding new appended s1 s2 s3 append_fblock append_block next_block on_fs on_file ignore
      end_old_fblock
  append_new =
      let word : b % 2 ^ 16 ≡ b = omega (arith, small) in
      rw
        (
          taken,
          word,
          lookup_inode-HasInode inum t n s1 (HasInode-next_block inum t n m s has),
          write_inode-HasInode inum t n (with_block b n) s2 own has2,
        )
        refl
