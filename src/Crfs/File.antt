-- ===== src/Crfs/File.antt =====
-- Open files of cobalt_romfs/crfs_func.c: `crfs_open`, `crfs_read`, `crfs_write`, `crfs_close`,
-- `crfs_seek`, and the helpers `next_fblock` and `append_fblock`. A function on a file works on the
-- file system and the file together.
use cobalt_rom.Prelude.{
  ℕ, ◌+◌, ◌%◌, ◌^◌, Bool, true, false, not, ◌||◌, List, length, ltb, ◌==◌, if◌then◌else◌,
}
use cobalt_rom.Crfs.Layout.{
  Block, zeros, get16, put16, copy, Inode, filename_max, fb_prev, fb_next, fb_offset, fb_data,
  fblock_data,
}
use cobalt_rom.Crfs.State.{Fs, ok, err, enoent, eisdir, enametoolong, enospc, einval, ebadf, enosys}
use cobalt_rom.Crfs.Monad.{M, pure, throw, gets, run, modify, on_option, ◌>>=◌, ◌>>◌}
use cobalt_rom.Crfs.Cache.{read_block, write_block, cache_flush}
use cobalt_rom.Crfs.Inode.{next_block, lookup_inode, write_inode}
use cobalt_rom.Crfs.Dir.{lookup_dirent, namei, is_dir}

-- CO_FILE_MAGIC
abbrev pub file_magic : ℕ
file_magic = 0x00c0f100

-- `CO_FILE`
pub record File : Type 0 where
  pub magic : ℕ
  pub inode : ℕ
  pub curblock : ℕ
  pub fpos : ℕ
  pub nospc : Bool
  pub fblock : Block

pub record Open : Type 0 where
  pub fs : Fs
  pub file : File

unfoldable pub on_fs : {A : Type 0} → M Fs A → M Open A
on_fs m o = let (r, fs') = m o.fs in (r, record o { fs = fs' })

unfoldable pub on_file : (File → File) → M Open (Unit {0})
on_file f o = (ok tt, record o { file = f o.file })

-- A call whose result is not looked at.
unfoldable pub ignore : {A : Type 0} → M Open A → M Open (Unit {0})
ignore m o = (ok tt, (m o).1)

-- The two allocations of `crfs_open` are taken to succeed.
unfoldable pub open_inode : Inode → M Fs File
open_inode inode = do
  block ← run (λ s. if inode.in_first == 0 then (zeros, s) else read_block inode.in_first s)
  pure (record {
    magic = file_magic;
    inode = inode.in_inode;
    curblock = inode.in_first;
    fpos = 0;
    nospc = false;
    fblock = block;
  })

unfoldable pub open_in : Inode → List ℕ → M Fs File
open_in dirnode name = do
  d ← run (read_block dirnode.in_first)
  on_option (lookup_dirent d name) (throw enoent) (λ inum. lookup_inode inum >>= open_inode)

unfoldable pub open_file : List ℕ → M Fs File
open_file path = do
  (dirnode, name) ← namei path
  if ltb filename_max (length name)
      then throw enametoolong
      else (do dir ← is_dir dirnode name; if dir then throw eisdir else open_in dirnode name)

-- The result says whether there is a next block, which is then loaded.
unfoldable pub next_fblock : Open → Bool × Open
next_fblock o =
    let next = get16 o.file.fblock fb_next in
    if next == 0
    then (false, o)
    else let (b, fs') = read_block next o.fs in
      (true, record { fs = fs'; file = record o.file { curblock = next; fblock = b } })

-- `fb_data` of a block, cleared.
unfoldable pub clear_data : Block → Block
clear_data b = copy b fb_data zeros fblock_data

-- The links of the new last block, in the buffer that still holds the old one.
unfoldable pub link_fblock : ℕ → ℕ → Block → Block
link_fblock curblock block_index b = clear_data (put16 (put16 b fb_prev curblock) fb_next 0)

-- The old last block is written with its new link; a first block goes into the inode.
unfoldable pub end_old_fblock : ℕ → Inode → M Open Inode
end_old_fblock block_index inode o =
    if o.file.curblock == 0
    then (
      ok (record inode { in_first = block_index }),
      record o { file = record o.file { fblock = put16 o.file.fblock fb_offset 0 } },
    )
    else let linked = put16 o.file.fblock fb_next block_index in
      let counted = put16 linked fb_offset ((get16 linked fb_offset + 1) % 2 ^ 16) in
      (
        ok inode,
        record {
          fs = write_block o.file.curblock linked o.fs;
          file = record o.file { fblock = counted };
        },
      )

unfoldable pub append_block : ℕ → M Open (Unit {0})
append_block block_index = do
  on_file (λ f. record f { nospc = false })
  inum ← gets (λ o. o.file.inode)
  inode ← on_fs (lookup_inode inum)
  inode' ← end_old_fblock block_index inode
  on_file (λ f. record f {
    fblock = link_fblock f.curblock block_index f.fblock;
    curblock = block_index;
  })
  modify (λ o. record o { fs = write_block block_index o.file.fblock o.fs })
  ignore (on_fs (write_inode (record inode' { in_last = block_index })))

unfoldable pub append_fblock : M Open (Unit {0})
append_fblock = do
  o ← on_fs (run next_block)
  on_option o (on_file (λ f. record f { nospc = true }) >> throw enospc)
      (λ b. append_block (b % 2 ^ 16))

-- `crfs_close` flushes; the file's memory is freed, so no file is left.
unfoldable pub close : M Open (Unit {0})
close o =
    if o.file.magic == file_magic
    then (ok tt, record { fs = cache_flush o.fs; file = record o.file { magic = 0 } })
    else (err ebadf, o)

-- `crfs_seek` ends in ENOSYS for every file and position.
unfoldable pub seek : ℕ → M Open (Unit {0})
seek whence o =
    if not (o.file.magic == file_magic)
    then (err ebadf, o)
    else if not (whence == 0 || whence == 1 || whence == 2)
    then (err einval, o)
    else (err enosys, o)
