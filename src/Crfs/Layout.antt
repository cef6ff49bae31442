-- ===== src/Crfs/Layout.antt =====
-- Blocks as bytes, and the structures of cobalt_romfs/crfs.h laid over them as the i386 compiler
-- lays them out: little endian, each field at a multiple of its size.
pub mod Fields
pub mod Strings
use cobalt_rom.Prelude.{
  ℕ, zero, suc, ◌+◌, ◌-◌, ◌*◌, ◌/◌, ◌%◌, ◌^◌, Bool, true, false, ◌&&◌, List, [], ◌∷◌, ltb, leb,
  ◌==◌, if◌then◌else◌,
}

-- The byte at each offset.
abbrev pub Block : Type 0
Block = ℕ → ℕ

abbrev pub block_size : ℕ
block_size = 0x1000

abbrev pub zeros : Block
zeros = λ _. 0

unfoldable pub get16 : Block → ℕ → ℕ
get16 b o = b o + 256 * b (o + 1)

unfoldable pub get32 : Block → ℕ → ℕ
get32 b o = b o + 256 * b (o + 1) + 65536 * b (o + 2) + 16777216 * b (o + 3)

unfoldable pub put16 : Block → ℕ → ℕ → Block
put16 b o v i = if i == o then v % 256 else if i == o + 1 then v / 256 % 256 else b i

unfoldable pub put32 : Block → ℕ → ℕ → Block
put32 b o v i =
    if i == o
    then v % 256
    else if i == o + 1
    then v / 256 % 256
    else if i == o + 2
    then v / 65536 % 256
    else if i == o + 3
    then v / 16777216 % 256
    else b i

-- memcpy(b + o, src, n)
unfoldable pub copy : Block → ℕ → Block → ℕ → Block
copy b o src n i = if leb o i && ltb i (o + n) then src (i - o) else b i

-- The C string at an offset, read up to its NUL or, here, the end of the block.
unfoldable pub string_from : ℕ → Block → ℕ → List ℕ
string_from zero b o = []
string_from (suc n) b o = elim (b o == 0) [ true ↦ [] | false ↦ b o ∷ string_from n b (o + 1) ]

unfoldable pub get_string : Block → ℕ → List ℕ
get_string b o = string_from (block_size - o) b o

-- strcpy(b + o, s)
unfoldable pub put_string : Block → ℕ → List ℕ → Block
put_string b o [] i = if i == o then 0 else b i
put_string b o (c ∷ s) i = if i == o then c else put_string b (o + 1) s i

-- `struct _crfs_inode`: 16 bytes, of which the two at 6 are padding.
pub record Inode : Type 0 where
  pub in_inode : ℕ
  pub in_first : ℕ
  pub in_last : ℕ
  pub in_fsize : ℕ
  pub in_fmask : ℕ

abbrev pub fmask_file : ℕ
fmask_file = 1

abbrev pub fmask_dir : ℕ
fmask_dir = 4

-- CRFS_ITABLE_NINODES
abbrev pub itable_ninodes : ℕ
itable_ninodes = 256

-- `it_inodes[i]` of a `crfs_itable`.
unfoldable pub get_inode : Block → ℕ → Inode
get_inode b i = record {
  in_inode = get16 b (i * 16);
  in_first = get16 b (i * 16 + 2);
  in_last = get16 b (i * 16 + 4);
  in_fsize = get32 b (i * 16 + 8);
  in_fmask = get32 b (i * 16 + 12);
}

-- `it_inodes[i] = inode`; the padding keeps what it holds.
unfoldable pub put_inode : Block → ℕ → Inode → Block
put_inode b i n =
    put32
      (put32
        (put16 (put16 (put16 b (i * 16) n.in_inode) (i * 16 + 2) n.in_first) (i * 16 + 4) n.in_last)
        (i * 16 + 8) n.in_fsize)
      (i * 16 + 12) n.in_fmask

-- The super block: fields of `struct _crfs_super_block`.
abbrev pub sb_checksum : ℕ
sb_checksum = 8

abbrev pub sb_blockver : ℕ
sb_blockver = 12

abbrev pub sb_fssize : ℕ
sb_fssize = 16

abbrev pub sb_root : ℕ
sb_root = 20

-- `sb_vtable[i]`
abbrev pub sb_vtable : ℕ → ℕ
sb_vtable i = 22 + 2 * i

-- CRFS_SB_VTABLE_LEN
abbrev pub sb_vtable_len : ℕ
sb_vtable_len = 16

-- CRFS_NSBLOCKS
abbrev pub nsblocks : ℕ
nsblocks = 2

-- `struct _crfs_fblock`
abbrev pub fb_prev : ℕ
fb_prev = 0

abbrev pub fb_next : ℕ
fb_next = 2

abbrev pub fb_offset : ℕ
fb_offset = 4

abbrev pub fb_data : ℕ
fb_data = 16

-- CRFS_FBLOCK_DATA
abbrev pub fblock_data : ℕ
fblock_data = 4080

-- CRFS_FILENAME_MAX
abbrev pub filename_max : ℕ
filename_max = 59

-- CRFS_DIR_NENTS
abbrev pub dir_nents : ℕ
dir_nents = 64

-- `d_entries[i].de_inode` and `.de_name` of a `crfs_directory`, entries of 64 bytes.
abbrev pub de_inode : ℕ → ℕ
de_inode i = i * 64

abbrev pub de_name : ℕ → ℕ
de_name i = i * 64 + 2
