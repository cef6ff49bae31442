-- ===== src/Crfs/Format/Remount.antt =====
-- `crfs_init` after `crfs_mkfs`.
use cobalt_rom.Prelude.{
  ℕ, suc, ◌^◌, ◌<◌, ◌≡◌, refl, sym, ◌∙◌, ap, true, false, Option, some, List, [], ◌∷◌, Option-cases,
  Bool-cases, ◌==◌, inl, inr, arith,
}
use cobalt_rom.Crfs.Layout.{
  Block, zeros, get32, put16, put32, put_string, put_inode, get_string, string_from, sb_checksum,
  sb_blockver,
}
use cobalt_rom.Crfs.Layout.Fields.{get32-put32_self, get32-put32_ne}
use cobalt_rom.Crfs.State.{Datum, Fs}
use cobalt_rom.Crfs.Cache.{
  find, cache_add, overwrite, write_block, checksum, next_super, next_which,
}
use cobalt_rom.Crfs.Cache.View.{
  view, view-write_block, which_super-write_block, super_block-write_block,
}
use cobalt_rom.Crfs.Cache.Coherent.{IsCoherent, write_block-IsCoherent}
use cobalt_rom.Crfs.Cache.Checksum.{checksum-lt, checksum-put32}
use cobalt_rom.Crfs.Cache.Flush.{super_place, disk-cache_flush-view}
use cobalt_rom.Crfs.Create.{dir_inode, new_directory}
use cobalt_rom.Crfs.Dir.{same_name}
use cobalt_rom.Crfs.Mount.{magic, choose_super}
use cobalt_rom.Crfs.Mount.Choice.{version}
use cobalt_rom.Crfs.Mount.Remount.{magic-put32, is_super_block-magic, choose_super-cache_flush}
use cobalt_rom.Crfs.Format.{blank_super, numbered_super, write_supers, format, mkfs}

blank_magic : (size : ℕ) → same_name (get_string (blank_super size) 0) magic ≡ true
unfolding same_name get_string string_from blank_super put16 put32 put_string
blank_magic size = refl

numbered_magic :
    (sb : Block) (i : ℕ)
    → same_name (get_string sb 0) magic ≡ true
    → same_name (get_string (numbered_super sb i) 0) magic ≡ true
unfolding numbered_super
numbered_magic sb i h =
    magic-put32 _ sb_checksum _ (omega arith) (magic-put32 sb sb_blockver i (omega arith) h)

numbered_version : (sb : Block) (i : ℕ) → i < 2 ^ 32 → get32 (numbered_super sb i) sb_blockver ≡ i
unfolding numbered_super
numbered_version sb i h =
    get32-put32_ne _ sb_checksum sb_blockver _ (inl (omega arith))
    ∙ get32-put32_self sb sb_blockver i (omega (arith, h))

numbered_checksum :
    (sb : Block) (i : ℕ) → get32 (numbered_super sb i) sb_checksum ≡ checksum (numbered_super sb i)
unfolding numbered_super
numbered_checksum sb i =
    get32-put32_self _ sb_checksum (checksum (put32 sb sb_blockver i))
      (omega (arith, checksum-lt (put32 sb sb_blockver i)))
    ∙ sym (checksum-put32 (put32 sb sb_blockver i) (checksum (put32 sb sb_blockver i)))

-- The second super block of a new file system, of version 1.
abbrev pub last_super : ℕ → Block
last_super size = numbered_super (numbered_super (blank_super size) 0) 1

last_magic : (size : ℕ) → same_name (get_string (last_super size) 0) magic ≡ true
last_magic size = numbered_magic _ 1 (numbered_magic (blank_super size) 0 (blank_magic size))

last_version : (size : ℕ) → version (last_super size) ≡ 1
last_version size =
    rw (is_super_block-magic (last_super size) (numbered_checksum _ 1) (last_magic size))
      (numbered_version _ 1 (omega arith))

supers_written : ℕ → Fs → Fs
supers_written size s =
    write_block 16 (last_super size) (write_block 0 (numbered_super (blank_super size) 0) s)

format_lem :
    (size : ℕ) (s : Fs)
    → format size s
      ≡ write_block 3 (new_directory 1 1) (
          write_block 2 (put_inode zeros 1 (dir_inode 1 3)) (record (supers_written size s) {
            which_super = some 1;
            super_block = last_super size;
          }))
unfolding format write_supers supers_written
format_lem size s = refl

Keeps_chosen :
    (w : Option ℕ) (sb : Block) (s : Fs)
    → IsCoherent s
    → IsCoherent (record s { which_super = w; super_block = sb })
Keeps_chosen w sb s c = record { unique = c.unique; clean = c.clean }

format-IsCoherent : (size : ℕ) (s : Fs) → IsCoherent s → IsCoherent (format size s)
unfolding supers_written
format-IsCoherent size s c = rw (format_lem size s) (
    write_block-IsCoherent 3 _ _ (
      write_block-IsCoherent 2 _ _ (
        Keeps_chosen _ _ (supers_written size s)
          (write_block-IsCoherent 16 _ _ (write_block-IsCoherent 0 _ _ c)))))

overwrite-cons :
    (idx : ℕ) (b : Block) (d : Datum) (ds : List Datum)
    → (d' : Datum) × (ds' : List Datum) × (overwrite idx b (d ∷ ds) ≡ d' ∷ ds')
unfolding overwrite
overwrite-cons idx b d ds = elim (Bool-cases (d.dt_blockaddr == idx)) [
  | inl e ↦ (record d { dt_data = b; dt_dirty = true }, ds, rw e refl)
  | inr e ↦ (d, overwrite idx b ds, rw e refl)
]

found-cons :
    (idx : ℕ) (b : Block) (ds : List Datum) (d : Datum)
    → find idx ds ≡ some d
    → (d' : Datum) × (ds' : List Datum) × (overwrite idx b ds ≡ d' ∷ ds')
found-cons idx b [] d e = absurd (unfold find in ground (arith, e))
found-cons idx b (x ∷ xs) d e = overwrite-cons idx b x xs

write_block-cons :
    (idx : ℕ) (b : Block) (s : Fs)
    → (d : Datum) × (ds : List Datum) × ((write_block idx b s).cache ≡ d ∷ ds)
unfolding write_block cache_add
write_block-cons idx b s = elim (Option-cases (find idx s.cache)) [
  | inl e ↦ (
    record { dt_blockaddr = idx; dt_dirty = true; dt_data = b },
    s.cache,
    rw (e, write_block) refl,
  )
  | inr (d, e) ↦ let (d', ds', p) = found-cons idx b s.cache d e in (d', ds', rw (e, write_block) p)
]

view-format : (size : ℕ) (s : Fs) → view (format size s) 16 ≡ last_super size
view-format size s =
    ap (λ (t : Fs). view t 16) (format_lem size s)
    ∙ view-write_block 3 16 _ _
    ∙ view-write_block 2 16 _ _
    ∙ unfold supers_written in view-write_block 16 16 _ _

format_which : (size : ℕ) (s : Fs) → (format size s).which_super ≡ some 1
format_which size s =
    ap (λ (t : Fs). t.which_super) (format_lem size s)
    ∙ which_super-write_block 3 _ _
    ∙ which_super-write_block 2 _ _

format_super : (size : ℕ) (s : Fs) → (format size s).super_block ≡ last_super size
format_super size s =
    ap (λ (t : Fs). t.super_block) (format_lem size s)
    ∙ super_block-write_block 3 _ _
    ∙ super_block-write_block 2 _ _

last_blockver : (size : ℕ) → get32 (last_super size) sb_blockver ≡ 1
last_blockver size = numbered_version _ 1 (omega arith)

-- After `crfs_mkfs` with a coherent cache, `crfs_init` chooses the super block in the first place,
-- which is the one of `crfs_mkfs` with its version counted up by the flush.
pub choose_super-mkfs :
    (size : ℕ) (s : Fs)
    → IsCoherent s
    → (choose_super (mkfs size s)).0 ≡ some (0, next_super (last_super size))
unfolding mkfs
choose_super-mkfs size s c =
    let (d, ds, p) = write_block-cons 3 (new_directory 1 1) _ in
    choose_super-cache_flush (format size s) d ds 1 (format-IsCoherent size s c)
      (ap (λ (t : Fs). t.cache) (format_lem size s) ∙ p) (format_which size s) (omega arith)
      (rw (format_super size s) (last_magic size))
      (rw (format_super size s) (omega (arith, last_blockver size)))
      (rw (view-format size s) (omega (arith, last_version size)))
      (rw (view-format size s, format_super size s)
        (omega (arith, last_version size, last_blockver size)))
    ∙ rw (format_super size s) (unfold next_which in ground arith)

-- With a coherent cache, `crfs_mkfs` puts the root directory, inode 1, in block 3 of the backing
-- store and its inode in the table in block 2.
pub disk-mkfs :
    (size : ℕ) (s : Fs)
    → IsCoherent s
    → ((mkfs size s).disk 2 ≡ put_inode zeros 1 (dir_inode 1 3))
      × ((mkfs size s).disk 3 ≡ new_directory 1 1)
unfolding mkfs
disk-mkfs size s c = (
  disk-cache_flush-view (format size s) 2 (format-IsCoherent size s c) (elsewhere 1)
      ∙ ap (λ (t : Fs). view t 2) (format_lem size s)
      ∙ view-write_block 3 2 _ _
      ∙ view-write_block 2 2 _ _,
  disk-cache_flush-view (format size s) 3 (format-IsCoherent size s c) (elsewhere 2)
      ∙ ap (λ (t : Fs). view t 3) (format_lem size s)
      ∙ view-write_block 3 3 _ _,
)
  where
    elsewhere : (j : ℕ) → super_place (format size s) == suc j ≡ false
    elsewhere j = rw (format_which size s) (unfold next_which in ground arith)
