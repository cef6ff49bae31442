-- ===== src/Region.antt =====
-- The regions of I/O ports and memory that x86/common/region.c hands out from the top downwards. The
-- list is the global `region_list`.
pub mod Rounding
pub mod Blocks
mod Tests
use cobalt_rom.Prelude.{
  ℕ, zero, suc, ◌+◌, ◌-◌, ◌/◌, ◌%◌, ◌^◌, bit_and, bit_or, Bool, true, false, ◌&&◌, Option, none,
  some, List, [], ◌∷◌, ◌++◌, ltb, ◌==◌, if◌then◌else◌,
}

-- `struct region_info`; its link is the list's.
pub record Region : Type 0 where
  pub id : ℕ
  pub mask : ℕ
  pub limit : ℕ
  pub base : ℕ
  pub size : ℕ
  pub name : List ℕ

unfoldable pub find : ℕ → List Region → Option Region
find id [] = none
find id (r ∷ rs) = if r.id == id then some r else find id rs

-- The allocation is taken to succeed.
unfoldable pub init : ℕ → ℕ → ℕ → List ℕ → List Region → List Region
init id align base name rs =
    rs ++ record { id = id; mask = align; limit = base; base = base; size = 0; name = name } ∷ []

-- The loop of `roundup2`, with the rounds that are left: `aligned` and `shifts` at its end.
unfoldable pub count_bits : ℕ → ℕ → ℕ → ℕ → ℕ × ℕ
count_bits zero n aligned shifts = (aligned, shifts)
count_bits (suc k) n aligned shifts =
    let rest =
      count_bits k (n / 2) (if n % 2 == 1 && ltb 1 n then aligned + 1 else aligned) (shifts + 1) in
    if n == 0 then (aligned, shifts) else rest

-- A number of 32 bits is 0 after 32 rounds. The shift takes its count modulo 32, as the machine's
-- does; C leaves a shift by 32 undefined.
unfoldable pub roundup2 : ℕ → ℕ
roundup2 num =
    let (aligned, shifts) = count_bits 32 num 0 0 in if aligned == 0 then num else 2 ^ (shifts % 32)

-- `&= ~m` on 32 bits.
abbrev pub clear_bits : ℕ → ℕ → ℕ
clear_bits v m = bit_and v (2 ^ 32 - 1 - m)

-- The region after `region_allocate` took `n` bytes, a rounded size.
unfoldable pub take_block : ℕ → Region → Region
take_block n r = record r {
  base = (clear_bits r.base (bit_or (n - 1) r.mask) + 2 ^ 32 - n) % 2 ^ 32;
  size = (r.size + n) % 2 ^ 32;
}

-- A change of the region that `region_find` finds.
unfoldable pub update : ℕ → (Region → Region) → List Region → List Region
update id f [] = []
update id f (r ∷ rs) = if r.id == id then f r ∷ rs else r ∷ update id f rs

unfoldable pub allocate : ℕ → ℕ → List Region → ℕ × List Region
allocate id size rs = elim (find id rs) [
  | none ↦ (0, rs)
  | some r ↦
      if size == 0
      then (r.size, rs)
      else ((take_block (roundup2 size) r).base, update id (take_block (roundup2 size)) rs)
]

-- `region_align` of a region that there is; the code does not test for one.
unfoldable pub align : ℕ → ℕ → List Region → List Region
align id mask rs = update id (λ r. record r { base = clear_bits r.base mask }) rs

unfoldable pub get_name : ℕ → List Region → Option (List ℕ)
get_name id rs = elim (find id rs) [ none ↦ none | some r ↦ some r.name ]

unfoldable pub get_size : ℕ → List Region → ℕ
get_size id rs = elim (find id rs) [ none ↦ 0 | some r ↦ r.size ]

unfoldable pub get_base : ℕ → List Region → ℕ
get_base id rs = elim (find id rs) [ none ↦ 0 | some r ↦ r.base ]

unfoldable pub get_limit : ℕ → List Region → ℕ
get_limit id rs = elim (find id rs) [ none ↦ 0 | some r ↦ r.limit ]
