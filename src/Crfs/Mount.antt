-- ===== src/Crfs/Mount.antt =====
-- `crfs_init` of cobalt_romfs/crfs_func.c: the choice of the super block, and the maps.
pub mod Choice
pub mod Damaged
pub mod Remount
use cobalt_rom.Prelude.{
  ℕ, zero, suc, ◌+◌, ◌/◌, ◌^◌, Bool, true, false, ◌&&◌, Option, none, some, List, [], ◌∷◌, ltb,
  ◌==◌, if◌then◌else◌,
}
use cobalt_rom.Crfs.Layout.{
  Block, get16, get32, get_string, block_size, nsblocks, sb_checksum, sb_blockver, sb_fssize,
  sb_root, sb_vtable, sb_vtable_len,
}
use cobalt_rom.Crfs.State.{Disk, Fs}
use cobalt_rom.Crfs.Cache.{read_block, checksum, sb_blocknum}
use cobalt_rom.Crfs.Dir.{same_name}
use cobalt_rom.Crfs.Freemap
use cobalt_rom.Crfs.Free.{on_block, mark_inode, tree_fuel}

-- "CRfs"
abbrev pub magic : List ℕ
magic = b'C' ∷ b'R' ∷ b'f' ∷ b's' ∷ []

-- The test on a super block: its check sum, and its first bytes as a string.
unfoldable pub is_super_block : Block → Bool
is_super_block sb = get32 sb sb_checksum == checksum sb && same_name (get_string sb 0) magic

-- The first loop: the valid super blocks among the places from `i` on, with the rounds that are
-- left. The blocks pass through the cache.
unfoldable pub valid_super_blocks : ℕ → ℕ → Fs → List Block × Fs
valid_super_blocks zero i s = ([], s)
valid_super_blocks (suc n) i s =
    let (sb, s1) = read_block (sb_blocknum i) s in
    let (rest, s2) = valid_super_blocks n (i + 1) s1 in
    (if is_super_block sb then sb ∷ rest else rest, s2)

-- The second loop, over the valid ones alone: `i` counts them. It keeps the one with the greatest
-- version above `sbver`.
unfoldable pub best_super : List Block → ℕ → ℕ → Option (ℕ × Block) → Option (ℕ × Block)
best_super [] i sbver best = best
best_super (sb ∷ sbs) i sbver best =
    best_super sbs (i + 1)
      (if ltb sbver (get32 sb sb_blockver) then get32 sb sb_blockver else sbver)
      (if ltb sbver (get32 sb sb_blockver) then some (i, sb) else best)

-- `crfs_which_super` and the super block. `crfs_which_super` is -1 when the program starts.
unfoldable pub choose_super : Fs → Option (ℕ × Block) × Fs
choose_super s =
    let (sbs, s') = valid_super_blocks nsblocks 0 (record s { cache = [] }) in
    (best_super sbs 0 0 none, s')

-- The maps of a file system before its tree is walked: of the blocks, one bit for each block of
-- `sb_fssize` in whole bytes; of the inodes, one for each 16-bit number.
unfoldable pub new_maps : ℕ × Block → Fs → Fs
new_maps (w, sb) s = record s {
  super_block = sb;
  which_super = some w;
  block_freemap =
      Freemap.mark
        (Freemap.mark (Freemap.init (get32 sb sb_fssize / block_size / Freemap.char_bit))
          (sb_blocknum 0))
        (sb_blocknum 1);
  inode_freemap = Freemap.mark (Freemap.init (2 ^ 16 / Freemap.char_bit)) 0;
}

-- The loop over the inode tables, with the rounds that are left.
unfoldable pub mark_itables : ℕ → ℕ → Fs → Fs
mark_itables zero i s = s
mark_itables (suc n) i s =
    let b = get16 s.super_block (sb_vtable i) in
    mark_itables n (i + 1) (if b == 0 then s else on_block Freemap.mark b s)

-- `crfs_init` returns 0, it returns -1, or it does not return.
pub data Outcome : Type 0 where
  mounted unmounted : Fs → Outcome
  endless : Outcome

abbrev pub set_pwd : Option Fs → Outcome
set_pwd none = endless
set_pwd (some s) = mounted (record s { pwd = get16 s.super_block sb_root })

unfoldable pub mount : Option (ℕ × Block) × Fs → Outcome
mount (none, s) = unmounted s
mount (some best, s) =
    let s1 = mark_itables sb_vtable_len 0 (new_maps best s) in
    set_pwd (mark_inode tree_fuel (get16 s1.super_block sb_root) s1)

-- `crfs_init`
unfoldable pub init : Fs → Outcome
init s = mount (choose_super s)
