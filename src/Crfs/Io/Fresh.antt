-- ===== src/Crfs/Io/Fresh.antt =====
-- A new file that is written, opened again and read.
use cobalt_rom.Prelude.{
  ℕ, ◌+◌, ◌%◌, ◌^◌, ◌<◌, ◌≡◌, refl, sym, ◌∙◌, ap, true, false, some, ltb, ◌==◌, ==_iff,
  if◌then◌else◌, if_intro, arith,
}
use cobalt_rom.Crfs.Layout.{Block, Inode, copy, fb_data, fblock_data, get_inode, itable_ninodes}
use cobalt_rom.Crfs.Layout.Fields.{Fits}
use cobalt_rom.Crfs.State.{Fs, Result, ok}
use cobalt_rom.Crfs.Monad.{◌>>=◌}
use cobalt_rom.Crfs.Freemap
use cobalt_rom.Crfs.Inode.{lookup_inode}
use cobalt_rom.Crfs.Cache.{read_block}
use cobalt_rom.Crfs.Cache.View.{view, read_block-view, view-read_block, view-write_block}
use cobalt_rom.Crfs.File.{File, Open, on_fs, ignore, open_inode}
use cobalt_rom.Crfs.Io.{from, put_data, store_fblock, update_size, write, read}
use cobalt_rom.Crfs.Io.Short.{stored, write_data-short}
use cobalt_rom.Crfs.Io.Content.{byte_at, IsRead}
use cobalt_rom.Crfs.Io.Whole.{file_size, readable, read-IsRead}
use cobalt_rom.Crfs.Io.Place.{one_block, first_block, copied}
use cobalt_rom.Crfs.Io.First.{
  HasInode, HasInode-read_block, lookup_inode-HasInode, HasInode-write_block, with_inode,
  write_inode-HasInode, HasInode-with_inode, view-with_inode, empty_file, first_fblock, with_block,
  new, appended, has3, append_new,
}

-- crfs_open once the path has led to the inode's number.
abbrev pub open_again : ℕ → Fs → Result File × Fs
open_again inum = lookup_inode inum >>= open_inode

module _ (inum t b size : ℕ) (n : Inode) (m : Freemap.Freemap) (s : Fs) (buf : Block)
    (has : HasInode inum t n s) (own : n.in_inode ≡ inum) (fits : Fits n) (empty : n.in_fsize ≡ 0)
    (unused : n.in_first ≡ 0) (taken : Freemap.next s.block_freemap ≡ (some b, m))
    (pos : (b == 0) ≡ false) (small : b < 2 ^ 16) (apart : (b == t) ≡ false) (some_bytes : 0 < size)
    (short : size < fblock_data) where
  o1 : Open
  o1 = appended inum t b n m s has own fits taken pos small apart

  has1 : HasInode inum t (with_block b n) o1.fs
  unfolding o1 appended
  has1 = has3 inum t b n m s has own fits taken pos small apart

  o2 : Open
  o2 = stored buf size o1

  has2' : HasInode inum t (with_block b n) o2.fs
  unfolding o2 o1 appended store_fblock put_data
  has2' = HasInode-write_block inum t b (with_block b n) _ o1.fs apart has1

  sized : Inode
  sized = record (with_block b n) { in_fsize = size }

  s5 : Fs
  s5 = with_inode inum t sized o2.fs

  has5 : HasInode inum t sized s5
  unfolding s5 sized
  has5 =
      HasInode-with_inode inum t (with_block b n) sized o2.fs
        (record {
          inode_fits = fits.inode_fits;
          first_fits = omega (arith, small);
          last_fits = omega (arith, small);
          fsize_fits = omega (arith, short);
          fmask_fits = fits.fmask_fits;
        })
        has2'

  updated : (update_size o2).1 ≡ record o2 { fs = s5 }
  unfolding update_size on_fs ignore o2 o1 appended store_fblock put_data s5 sized
  updated =
      let place : (0 + size) % 2 ^ 32 ≡ size = omega (arith, short) in
      let more : ltb 0 size ≡ true = ground (arith, some_bytes) in
      rw
        (
          lookup_inode-HasInode inum t (with_block b n) o2.fs has2',
          place,
          empty,
          more,
          write_inode-HasInode inum t (with_block b n) sized o2.fs own has2',
        )
        refl

  wrote :
      write buf size (new inum t b n m s has own fits taken pos small apart)
      ≡ (ok size, record o2 { fs = s5 })
  unfolding write new o1 o2 appended
  wrote = rw (append_new inum t b n m s has own fits taken pos small apart) (
      write_data-short buf size o1 (ground (arith, short)) (ground (arith, some_bytes))
      ∙ ap (λ x. (ok (0 + size), x)) updated
      ∙ ap (λ k. (ok k, record o2 { fs = s5 })) (omega arith))

  loaded : Fs
  loaded = (read_block b s5).1

  again : Open
  again = record {
    fs = loaded;
    file = record (empty_file inum) { curblock = b; fblock = (read_block b s5).0 };
  }

  opened_again : open_again inum s5 ≡ (ok again.file, again.fs)
  unfolding again loaded open_inode sized
  opened_again = rw (lookup_inode-HasInode inum t sized s5 has5, pos, own) refl

  has6 : HasInode inum t sized loaded
  unfolding loaded
  has6 = HasInode-read_block inum t b sized s5 has5

  again_size : file_size again ≡ size
  unfolding again sized
  again_size =
      ap (λ i. (get_inode (view loaded i) (inum % itable_ninodes)).in_fsize) has6.0
      ∙ ap (λ (i : Inode). i.in_fsize) has6.3

  again_view : view again.fs b ≡ copy (first_fblock b) fb_data (from buf 0) size
  unfolding again loaded s5 o2 o1 appended store_fblock put_data
  again_view =
      let other : (t == b) ≡ false = ground (arith, apart) in
      view-read_block b b s5
      ∙ view-with_inode inum t b sized o2.fs other
      ∙ view-write_block b b _ o1.fs
      ∙ rw ((==_iff b b).1 refl) refl

  opened_first : open_again inum s ≡ (ok (empty_file inum), s)
  unfolding open_inode
  opened_first = rw (lookup_inode-HasInode inum t n s has, unused, own) refl

  got :
      (old : Block)
      → (out : Block) × ((read old size again).0 ≡ ok (size, out))
        × ((k : ℕ) → out k ≡ (if ltb k size then buf k else old k))
  unfolding again loaded
  got old = (r.0, r.1 ∙ ap (λ j. ok (j, r.0)) whole, λ k. r.2 k ∙ same_byte k)
    where
      whole : readable size again ≡ size
      whole =
          let all : ltb (file_size again) (0 + size) ≡ false = ground (arith, again_size) in
          rw all refl

      here : (read_block b s5).0 ≡ view loaded b
      here = read_block-view b s5 ∙ sym (view-read_block b b s5)

      r :
          (out : Block) × ((read old size again).0 ≡ ok (readable size again, out))
          × IsRead loaded b 0 (readable size again) old out
      r =
          read-IsRead size old again refl pos here (omega (arith, again_size, some_bytes))
            (omega (arith, short))
            (one_block loaded b (0 + readable size again) pos (omega (arith, whole, short)))

      same_byte :
          (k : ℕ)
          → (if ltb k (readable size again) then byte_at loaded b (0 + k) else old k)
            ≡ (if ltb k size then buf k else old k)
      same_byte k =
          ap (λ j. if ltb k j then byte_at loaded b (0 + k) else old k) whole
          ∙ if_intro {A = ℕ} (λ x. x ≡ (if ltb k size then buf k else old k)) (ltb k size)
              (λ e.
                let lt : k < size = ground (arith, e) in
                rw e (
                  first_block loaded b (0 + k) (omega (arith, short, lt))
                  ∙ ap (λ (f : Block). f (fb_data + (0 + k))) again_view
                  ∙ ap (copy (first_fblock b) fb_data (from buf 0) size) (omega arith)
                  ∙ copied (first_fblock b) (from buf 0) fb_data size k lt
                  ∙ ap buf (omega arith)))
              (λ e. rw e refl)

  -- A file without blocks is opened, written, opened again and read: crfs_write takes all the
  -- bytes, and crfs_read gives them back and leaves the rest of its buffer. There is at least one
  -- byte and fewer than a block takes. The table of the file's inode is dirty, as crfs_create
  -- leaves it; the inode has its own number and fields that fit their widths, and says that the
  -- file is empty. The block that the map gives has a number above 0 that fits 16 bits, and is not
  -- that table.
  pub read-open_again-write :
      (old : Block)
      → (f : File) × (loaded : Fs) × (out : Block) × (open_again inum s ≡ (ok (empty_file inum), s))
        × ((write buf size (record { fs = s; file = empty_file inum })).0 ≡ ok size)
        × (open_again inum (write buf size (record { fs = s; file = empty_file inum })).1.fs
            ≡ (ok f, loaded))
        × ((read old size (record { fs = loaded; file = f })).0 ≡ ok (size, out))
        × ((k : ℕ) → out k ≡ (if ltb k size then buf k else old k))
  unfolding new again
  read-open_again-write old = (
    again.file,
    again.fs,
    (got old).0,
    opened_first,
    ap (λ (r : Result ℕ × Open). r.0) wrote,
    ap (λ (r : Result ℕ × Open). open_again inum r.1.fs) wrote ∙ opened_again,
    (got old).1,
    (got old).2,
  )
