-- ===== src/Crfs/Mount/Choice.antt =====
-- Which super block `crfs_init` chooses, after a flush and when one of the two is damaged.
use cobalt_rom.Prelude.{
  ℕ, ◌<◌, ◌≡◌, ◌≢◌, refl, ◌∙◌, false, none, some, List, [], ◌∷◌, ltb, if◌then◌else◌, arith,
}
use cobalt_rom.Crfs.Layout.{Block, get32, sb_blockver}
use cobalt_rom.Crfs.State.{Fs}
use cobalt_rom.Crfs.Cache.{find, cache_add, read_block}
use cobalt_rom.Crfs.Mount.{is_super_block, valid_super_blocks, best_super, choose_super}

abbrev keep_valid : Block → List Block → List Block
keep_valid sb rest = if is_super_block sb then sb ∷ rest else rest

-- The two loops read the places of the super blocks from the backing store.
choose_super_lem :
    (s : Fs)
    → (choose_super s).0 ≡ best_super (keep_valid (s.disk 0) (keep_valid (s.disk 16) [])) 0 0 none
unfolding choose_super valid_super_blocks read_block find cache_add
choose_super_lem s = refl

-- The version of a super block that passes the test, and 0 for any other.
abbrev pub version : Block → ℕ
version sb = if is_super_block sb then get32 sb sb_blockver else 0

-- The valid super blocks are counted, so the one of the second place alone has the number 0.
pub choose_super_second :
    (s : Fs)
    → is_super_block (s.disk 0) ≡ false
    → 0 < version (s.disk 16)
    → (choose_super s).0 ≡ some (0, s.disk 16)
unfolding best_super
choose_super_second s bad good = choose_super_lem s ∙ second (s.disk 0) (s.disk 16) bad good
  where
    second :
        (a b : Block)
        → is_super_block a ≡ false
        → 0 < version b
        → best_super (keep_valid a (keep_valid b [])) 0 0 none ≡ some (0, b)
    second a b bad good = rw bad (ground (arith, good))

-- `crfs_init` chooses the super block with the greater version, and its place, if both places hold
-- valid super blocks of versions that are at least 1 and differ.
pub choose_super_newest :
    (s : Fs)
    → 0 < version (s.disk 0)
    → 0 < version (s.disk 16)
    → version (s.disk 0) ≢ version (s.disk 16)
    → (choose_super s).0 ≡ (
        if ltb (version (s.disk 0)) (version (s.disk 16))
        then some (1, s.disk 16)
        else some (0, s.disk 0))
unfolding best_super
choose_super_newest s a b ne = choose_super_lem s ∙ both (s.disk 0) (s.disk 16) a b ne
  where
    both :
        (x y : Block)
        → 0 < version x
        → 0 < version y
        → version x ≢ version y
        → best_super (keep_valid x (keep_valid y [])) 0 0 none
          ≡ (if ltb (version x) (version y) then some (1, y) else some (0, x))
    both x y p q ne = ground arith
