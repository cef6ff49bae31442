-- ===== src/Crfs/State.antt =====
-- The global state of cobalt_romfs/crfs_func.c, and the results of its functions.
use cobalt_rom.Prelude.{ℕ, Bool, Option, List}
use cobalt_rom.Crfs.Layout.{Block}
use cobalt_rom.Crfs.Freemap.{Freemap}

-- `struct crfs_datum`; its link is the list's.
pub record Datum : Type 0 where
  pub dt_blockaddr : ℕ
  pub dt_dirty : Bool
  pub dt_data : Block

-- The backing store behind `read_block` and `write_block`: the content of each block.
abbrev pub Disk : Type 0
Disk = ℕ → Block

pub record Fs : Type 0 where
  pub cache : List Datum
  pub disk : Disk
  pub super_block : Block
  -- `none` is -1.
  pub which_super : Option ℕ
  pub block_freemap : Freemap
  pub inode_freemap : Freemap
  pub pwd : ℕ

-- The error numbers that the file system returns or stores in `errno`.
pub data Errno : Type 0 where
  enoent enotdir eisdir eexist enametoolong enospc einval ebadf enosys : Errno

pub data Result {ℓ} (A : Type ℓ) : Type ℓ where
  ok : A → Result A
  err : Errno → Result A
