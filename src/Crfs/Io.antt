-- ===== src/Crfs/Io.antt =====
-- `crfs_read` and `crfs_write` of cobalt_romfs/crfs_func.c. The caller's buffer is the content of
-- memory from the buffer's address on.
mod Tests
pub mod Short
pub mod Content
pub mod Whole
pub mod Place
pub mod First
pub mod Fresh
use cobalt_rom.Prelude.{
  ℕ, zero, suc, ◌+◌, ◌-◌, ◌%◌, ◌^◌, Bool, true, false, not, ◌&&◌, ◌||◌, ltb, leb, ◌==◌,
  if◌then◌else◌,
}
use cobalt_rom.Crfs.Layout.{Block, copy, fb_data, fblock_data}
use cobalt_rom.Crfs.State.{ok, err, enospc, ebadf}
use cobalt_rom.Crfs.Monad.{M, pure, throw, gets, run, ◌>>=◌, ◌>>◌}
use cobalt_rom.Crfs.Cache.{write_block}
use cobalt_rom.Crfs.Inode.{lookup_inode, write_inode}
use cobalt_rom.Crfs.File.{Open, file_magic, on_fs, ignore, next_fblock, append_fblock}

-- Memory from `pos` bytes after `buf` on.
abbrev pub from : Block → ℕ → Block
from buf pos k = buf (pos + k)

-- A transfer under way: the bytes left to do, those done, and whether it has been given up.
pub record Transfer : Type 0 where
  pub left : ℕ
  pub done : ℕ
  pub failed : Bool

-- memcpy(fb_data + fboff, buf + done, n), with the file position.
unfoldable pub put_data : Block → ℕ → ℕ → ℕ → Open → Open
put_data buf fboff done n o = record o {
  file = record o.file {
    fblock = copy o.file.fblock (fb_data + fboff) (from buf done) n;
    fpos = (o.file.fpos + n) % 2 ^ 32;
  };
}

-- `crfs_write_block(fp->F_curblock, fp->F_fblock)`
unfoldable pub store_fblock : Open → Open
store_fblock o = record o { fs = write_block o.file.curblock o.file.fblock o.fs }

-- The next block for what is left: the one that follows, else a new one. Without one the write is
-- given up.
unfoldable pub advance : Transfer → Open → Transfer × Open
advance t o =
    if t.left == 0
    then (t, o)
    else let (more, o1) = next_fblock o in
      if more
      then (t, o1)
      else let (r, o2) = append_fblock o1 in
        elim r [ ok u ↦ (t, o2) | err e ↦ (record t { left = 0; failed = true }, o2) ]

-- One block's share of the write, from an offset in the block to its end.
unfoldable pub fill_block : Block → ℕ → Transfer → Open → Transfer × Open
fill_block buf fboff t o =
    let n = fblock_data - fboff in
    advance (record t { left = t.left - n; done = t.done + n })
      (store_fblock (put_data buf fboff t.done n o))

-- The loop over complete blocks. Each round takes CRFS_FBLOCK_DATA bytes or gives up, so `left`
-- rounds and one more are enough.
unfoldable pub write_blocks : ℕ → Block → Transfer → Open → Transfer × Open
write_blocks zero buf t o = (t, o)
write_blocks (suc n) buf t o =
    let next = fill_block buf 0 t o in
    elim (leb fblock_data t.left) [ true ↦ write_blocks n buf next.0 next.1 | false ↦ (t, o) ]

-- The first block and the complete ones after it, if the write reaches the first one's end.
unfoldable pub write_full : Block → ℕ → ℕ → Open → Transfer × Open
write_full buf fboff size o =
    let t : Transfer = record { left = size; done = 0; failed = false } in
    if leb (fblock_data - fboff) size
    then (let (t1, o1) = fill_block buf fboff t o in write_blocks (t1.left + 1) buf t1 o1)
    else (t, o)

-- The last part, at offset 0 unless it is the first one too.
unfoldable pub write_rest : Block → ℕ → Transfer → Open → Transfer × Open
write_rest buf fboff t o = if t.left == 0 then (t, store_fblock o) else (
  record t { left = 0; done = t.done + t.left },
  store_fblock (put_data buf (if t.done == 0 then fboff else 0) t.done t.left o),
)

-- The file's new length, if it has grown.
unfoldable pub update_size : M Open (Unit {0})
update_size = do
  inum ← gets (λ o. o.file.inode)
  inode ← on_fs (lookup_inode inum)
  fpos ← gets (λ o. o.file.fpos)
  if ltb inode.in_fsize fpos
      then ignore (on_fs (write_inode (record inode { in_fsize = fpos })))
      else pure tt

unfoldable pub write_data : Block → ℕ → M Open ℕ
write_data buf size o =
    let fboff = o.file.fpos % fblock_data in
    let (t1, o1) = write_full buf fboff size o in
    let (t2, o2) = write_rest buf fboff t1 o1 in
    let (u, o3) = update_size o2 in if t2.failed then (err enospc, o3) else (ok t2.done, o3)

unfoldable pub write : Block → ℕ → M Open ℕ
write buf size = do
  file ← gets (λ o. o.file)
  if not (file.magic == file_magic)
      then throw ebadf
      else if file.curblock == 0 || file.nospc
      then (append_fblock >> write_data buf size)
      else write_data buf size

-- A read under way; `out` is the caller's buffer.
pub record Reading : Type 0 where
  pub left : ℕ
  pub done : ℕ
  pub failed : Bool
  pub out : Block

-- memcpy(out + done, fb_data + fboff, n), with the file position.
unfoldable pub get_data : ℕ → ℕ → Reading → Open → Reading × Open
get_data fboff n t o = (
  record t {
    left = t.left - n;
    done = t.done + n;
    out = copy t.out t.done (from o.file.fblock (fb_data + fboff)) n;
  },
  record o { file = record o.file { fpos = (o.file.fpos + n) % 2 ^ 32 } },
)

-- One block's share of the read and the step to the next block. A chain that ends before the file
-- does breaks the read off.
unfoldable pub drain_block : ℕ → Reading → Open → Reading × Open
drain_block fboff t o =
    let (t1, o1) = get_data fboff (fblock_data - fboff) t o in
    let (more, o2) = next_fblock o1 in (record t1 { failed = not more && not (t1.left == 0) }, o2)

unfoldable pub read_blocks : ℕ → Reading → Open → Reading × Open
read_blocks zero t o = (t, o)
read_blocks (suc n) t o =
    let next = drain_block 0 t o in
    elim (leb fblock_data t.left && not t.failed) [
      | true ↦ read_blocks n next.0 next.1
      | false ↦ (t, o)
    ]

unfoldable pub read_rest : ℕ → Reading → Open → Reading × Open
read_rest fboff t o =
    if t.left == 0 then (t, o) else get_data (if t.done == 0 then fboff else 0) t.left t o

unfoldable pub read_data : Block → ℕ → Open → (ℕ × Block) × Open
read_data buf size o =
    let fboff = o.file.fpos % fblock_data in
    let t : Reading = record { left = size; done = 0; failed = false; out = buf } in
    let (t1, o1) =
      if leb (fblock_data - fboff) size
      then (let (t', o') = drain_block fboff t o in read_blocks (t'.left + 1) t' o')
      else (t, o) in
    if t1.failed
    then ((0, t1.out), o1)
    else let (t2, o2) = read_rest fboff t1 o1 in ((t2.done, t2.out), o2)

-- The number of bytes read, and the buffer with them.
unfoldable pub read : Block → ℕ → M Open (ℕ × Block)
read buf size = do
  file ← gets (λ o. o.file)
  if not (file.magic == file_magic) then throw ebadf else (do
    inode ← on_fs (lookup_inode file.inode)
    let over = ltb inode.in_fsize ((file.fpos + size) % 2 ^ 32)
    let size' = if over then inode.in_fsize - file.fpos else size
    if leb inode.in_fsize file.fpos || file.curblock == 0
        then pure (0, buf)
        else run (read_data buf size'))
