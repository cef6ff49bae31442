-- ===== src/Region/Tests.antt =====
-- The theorems on x86/common/region.c at a list of two regions.
use cobalt_rom.Prelude.{ℕ, ◌+◌, ◌≤◌, ◌≡◌, refl, some, ◌==◌, if◌then◌else◌, List, [], ◌∷◌, arith}
use cobalt_rom.Region.{Region, find, take_block, roundup2, count_bits, allocate}
use cobalt_rom.Region.Blocks.{allocate_lem}

abbrev memory : Region
memory = record { id = 1; mask = 15; limit = 65536; base = 65536; size = 0; name = [] }

abbrev ports : Region
ports = record { id = 2; mask = 3; limit = 4096; base = 4096; size = 0; name = [] }

abbrev regions : List Region
regions = memory ∷ ports ∷ []

roundup2-run : (roundup2 5 ≡ 8) × (roundup2 8 ≡ 8) × (roundup2 1 ≡ 1)
unfolding roundup2 count_bits
roundup2-run = (refl, refl, refl)

allocate_example :
    ((allocate 1 100 regions).0 + 100 ≤ 65536)
    × ((j : ℕ)
        → find j (allocate 1 100 regions).1
          ≡ (if 1 == j then some (take_block (roundup2 100) memory) else find j regions))
    × ((take_block (roundup2 100) memory).base ≡ (allocate 1 100 regions).0)
unfolding find roundup2 count_bits
allocate_example =
    allocate_lem 1 100 regions memory refl (omega arith) (omega arith) (omega arith) (omega arith)
