-- ===== src/Crfs/Tests.antt =====
-- The theorems on cobalt_romfs/crfs_func.c at the example file system, and runs of its functions.
use cobalt_rom.Prelude.{
  ℕ, zero, suc, ◌<◌, ◌≡◌, ◌≢◌, ◌⊎◌, refl, ◌∙◌, true, false, some, ◌==◌, if◌then◌else◌, List, [],
  ◌∷◌, get_or, arith,
}
use cobalt_rom.Crfs.Layout.{
  Block, zeros, get32, get_string, string_from, put16, put_string, sb_blockver,
}
use cobalt_rom.Crfs.State.{Datum, Fs}
use cobalt_rom.Crfs.Freemap.{Freemap, init, first_clear, next, mark, unmark}
use cobalt_rom.Crfs.Freemap.Bit.{IsValid}
use cobalt_rom.Crfs.Freemap.Next.{Took, take_bit, unmark_bit, after, next-Took, next-unmark_ne}
use cobalt_rom.Crfs.Cache.{find, block_is_dirty, next_super, next_which, cache_flush}
use cobalt_rom.Crfs.Cache.View.{view}
use cobalt_rom.Crfs.Cache.Coherent.{IsCoherent}
use cobalt_rom.Crfs.Cache.Checksum.{next_super_lem}
use cobalt_rom.Crfs.Cache.Flush.{crashed, disk-cache_flush-view, crashed-super_block}
use cobalt_rom.Crfs.Phased.{IsPhased}
use cobalt_rom.Crfs.Phased.Crash.{
  Update, make_file, make_dir, after_all, after_all-IsPhased, crash_old_or_new,
  crash_keeps_super_block,
}
use cobalt_rom.Crfs.Dir.{same_name}
use cobalt_rom.Crfs.Mount.{magic, choose_super, is_super_block}
use cobalt_rom.Crfs.Mount.Choice.{version, choose_super_second}
use cobalt_rom.Crfs.Mount.Damaged.{choose_super_damaged}
use cobalt_rom.Crfs.Mount.Remount.{choose_super-cache_flush, magic-next_super, version-next_super}
use cobalt_rom.Crfs.Example.{
  blocks, blocks-IsValid, fs, fs-IsPhased, committed, plain_super, first_super,
}

-- Make the directory "d", then the file "d/a".
abbrev updates : List Update
updates = make_dir (b'd' ∷ []) ∷ make_file (b'd' ∷ b'/' ∷ b'a' ∷ []) ∷ []

crash_old_or_new_example :
    ((j : ℕ) → committed j ≡ true → crashed 2 (after_all updates fs) j ≡ fs.disk j)
    ⊎ (crashed 2 (after_all updates fs) ≡ (cache_flush (after_all updates fs)).disk)
crash_old_or_new_example = crash_old_or_new committed updates fs 2 fs-IsPhased

crash_keeps_super_block_example : crashed 5 (after_all updates fs) 0 ≡ fs.disk 0
crash_keeps_super_block_example =
    crash_keeps_super_block committed updates fs 5 0 fs-IsPhased refl (omega arith) refl

after_all-IsPhased_example : IsPhased committed fs (after_all updates fs)
after_all-IsPhased_example = after_all-IsPhased committed updates fs fs fs-IsPhased

-- The file system with one block written.
abbrev written : Datum
written = record { dt_blockaddr = 5; dt_dirty = true; dt_data = λ j. 7 }

abbrev dirtied : Fs
dirtied = record fs { cache = written ∷ [] }

dirtied-IsCoherent : IsCoherent dirtied
unfolding find
dirtied-IsCoherent = record { unique = (refl, tt); clean = λ j d h clean. ground (arith, h, clean) }

plain_magic : same_name (get_string plain_super 0) magic ≡ true
unfolding same_name get_string string_from put16 put_string
plain_magic = refl

plain_version : get32 plain_super sb_blockver ≡ 0
unfolding get32 put16 put_string
plain_version = refl

first_super_ver : get32 first_super sb_blockver ≡ 1
first_super_ver = rw ((next_super_lem plain_super).1, plain_version) refl

first_super-version : version first_super ≡ 1
first_super-version =
    version-next_super plain_super plain_magic (omega (arith, plain_version))
    ∙ rw plain_version refl

choose_super-cache_flush_example :
    (choose_super (cache_flush dirtied)).0 ≡ some (1, next_super first_super)
unfolding next_which find
choose_super-cache_flush_example =
    choose_super-cache_flush dirtied written [] 0 dirtied-IsCoherent refl refl (omega arith)
      (magic-next_super plain_super plain_magic) (omega (arith, first_super_ver))
      (omega (arith, first_super-version)) (omega (arith, first_super-version, first_super_ver))

abbrev second_super : Block
second_super = next_super first_super

second_super-version : version second_super ≡ 2
second_super-version =
    version-next_super first_super (magic-next_super plain_super plain_magic)
      (omega (arith, first_super_ver))
    ∙ rw first_super_ver refl

-- The file system with valid super blocks in both places.
abbrev two_supers : Fs
two_supers = record fs { disk = λ j. if j == 0 then first_super else second_super }

-- The file system with its valid super block in the second place only.
abbrev second_only : Fs
second_only = record fs { disk = λ j. if j == 16 then first_super else zeros }

-- That file system, mounted, with a changed block.
abbrev second_dirtied : Fs
second_dirtied = record second_only {
  cache = written ∷ [];
  super_block = first_super;
  which_super = some 0;
}

second_dirtied-IsCoherent : IsCoherent second_dirtied
unfolding find
second_dirtied-IsCoherent = record {
  unique = (refl, tt);
  clean = λ j d h clean. ground (arith, h, clean);
}

zeros-invalid : is_super_block zeros ≡ false
zeros-invalid = unfold is_super_block in ground (arith, unnamed)
  where
    unnamed : same_name (get_string zeros 0) magic ≡ false
    unnamed = unfold same_name get_string string_from in refl

choose_super_damaged_example :
    (first_super ≡ first_super)
    × ((cache_flush second_dirtied).disk 16 ≡ next_super first_super)
    × ((cache_flush second_dirtied).disk 0 ≡ view second_dirtied 0)
choose_super_damaged_example =
    choose_super_damaged second_only second_dirtied written [] 0 first_super zeros-invalid
      (omega (arith, first_super-version))
      (choose_super_second second_only zeros-invalid (omega (arith, first_super-version))) refl refl
      second_dirtied-IsCoherent

next-Took_example : Took blocks 1 (record (mark blocks 1) { cur = 0 })
unfolding init mark next first_clear
next-Took_example = next-Took blocks 1 (record (mark blocks 1) { cur = 0 }) blocks-IsValid refl

full : Freemap
full = record { cur = 0; mapsize = 1; map = 255 ∷ []; freed = 0 ∷ [] }

full-bytes : (v i : ℕ) → v < 256 → get_or (v ∷ []) i 0 < 256
full-bytes v zero h = h
full-bytes v (suc i) h = omega arith

full-IsValid : IsValid full
unfolding full
full-IsValid = record {
  map_size = refl;
  freed_size = refl;
  map_bytes = λ i. full-bytes 255 i (omega arith);
  freed_bytes = λ i. full-bytes 0 i (omega arith);
  cur_in = omega arith;
  none_before = λ b h. absurd (omega arith);
}

-- Bit 3 is freed and bit 1 is handed out, and then bit 2 is freed.
next-unmark_ne_example : ◌≢◌ {A = ℕ} 4 3
unfolding init mark next first_clear unmark
next-unmark_ne_example =
    next-unmark_ne (take_bit ∷ unmark_bit 2 ∷ []) blocks 3 4
      (next (after (take_bit ∷ unmark_bit 2 ∷ []) (unmark blocks 3))).1 blocks-IsValid (omega arith)
      refl (omega arith, tt) refl

disk-cache_flush-view_example : (cache_flush dirtied).disk 5 ≡ view dirtied 5
unfolding next_which
disk-cache_flush-view_example = disk-cache_flush-view dirtied 5 dirtied-IsCoherent refl

crashed-super_block_example : crashed 2 dirtied 0 ≡ dirtied.disk 0
unfolding block_is_dirty find
crashed-super_block_example =
    crashed-super_block 2 dirtied 0 dirtied-IsCoherent refl (omega arith) refl
