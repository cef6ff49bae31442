-- ===== src/Crfs/Example.antt =====
-- A small file system for the tests: the super block in block 0, an inode table in block 2, the
-- root directory, inode 1, in block 3. Blocks 0, 2, 3 and 16 of 32 are in use.
use cobalt_rom.Prelude.{
  ℕ, ◌≡◌, refl, Bool, true, ◌||◌, some, [], ◌==◌, ==_iff, Bool-cases, inl, inr, if◌then◌else◌,
  arith,
}
use cobalt_rom.Crfs.Layout.{Block, zeros, put16, put_string, put_inode, sb_root, sb_vtable}
use cobalt_rom.Crfs.State.{Disk, Fs}
use cobalt_rom.Crfs.Freemap.{Freemap, init, mark}
use cobalt_rom.Crfs.Freemap.Bit.{IsValid, busy}
use cobalt_rom.Crfs.Freemap.Valid.{init-IsValid, mark-IsValid}
use cobalt_rom.Crfs.Cache.{find, next_super, block_is_dirty}
use cobalt_rom.Crfs.Cache.Coherent.{IsCoherent}
use cobalt_rom.Crfs.Mount.{magic}
use cobalt_rom.Crfs.Phased.{IsPhased}
use cobalt_rom.Crfs.Create.{dir_inode, new_directory}

abbrev pub blocks : Freemap
blocks = mark (mark (mark (mark (init 4) 0) 2) 3) 16

abbrev pub inodes : Freemap
inodes = mark (mark (init 32) 0) 1

-- A super block with version 0 and no check sum.
abbrev pub plain_super : Block
plain_super = put16 (put16 (put_string zeros 0 magic) sb_root 1) (sb_vtable 0) 2

abbrev pub first_super : Block
first_super = next_super plain_super

abbrev pub root_table : Block
root_table = put_inode zeros 1 (dir_inode 1 3)

abbrev pub disk : Disk
disk j =
    if j == 0
    then first_super
    else if j == 2
    then root_table
    else if j == 3
    then new_directory 1 1
    else zeros

abbrev pub fs : Fs
fs = record {
  cache = [];
  disk = disk;
  super_block = first_super;
  which_super = some 0;
  block_freemap = blocks;
  inode_freemap = inodes;
  pwd = 1;
}

-- The blocks that hold the file system.
abbrev pub committed : ℕ → Bool
committed j = (j == 0) || (j == 2) || (j == 3)

pub blocks-IsValid : IsValid blocks
unfolding init mark
blocks-IsValid =
    mark-IsValid (mark (mark (mark (init 4) 0) 2) 3) 16
      (mark-IsValid (mark (mark (init 4) 0) 2) 3
        (mark-IsValid (mark (init 4) 0) 2 (mark-IsValid (init 4) 0 (init-IsValid 4) (omega arith))
          (omega arith))
        (omega arith))
      (omega arith)

pub fs-IsCoherent : IsCoherent fs
unfolding find
fs-IsCoherent = record { unique = tt; clean = λ j d h. absurd (ground (arith, h)) }

committed-blocks : (j : ℕ) → committed j ≡ true → busy blocks j ≡ 1
unfolding init mark
committed-blocks j h = elim (Bool-cases (j == 0)) [
  | inl e ↦ rw ((==_iff j 0).0 e) refl
  | inr e ↦ elim (Bool-cases (j == 2)) [
    | inl f ↦ rw ((==_iff j 2).0 f) refl
    | inr f ↦ elim (Bool-cases (j == 3)) [
      | inl g ↦ rw ((==_iff j 3).0 g) refl
      | inr g ↦ ground (arith, h, e, f, g)
    ]
  ]
]

pub fs-IsPhased : IsPhased committed fs fs
unfolding init mark find block_is_dirty
fs-IsPhased = record {
  valid = blocks-IsValid;
  room = omega arith;
  coherent = fs-IsCoherent;
  stored = refl;
  chosen = refl;
  taken = committed-blocks;
  untouched = λ j h. refl;
}
