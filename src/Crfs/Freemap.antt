-- ===== src/Crfs/Freemap.antt =====
-- The maps of used and free blocks and inodes: `struct freemap` and its routines in
-- cobalt_romfs/crfs_func.c. A map is a list of bytes. A C access past the end of a map has no
-- defined result; here such a read gives 0 and such a write changes nothing.
pub mod Bit
pub mod Valid
pub mod Next
use cobalt_rom.Prelude.{
  ℕ, zero, suc, ◌+◌, ◌-◌, ◌*◌, ◌/◌, ◌%◌, ◌^◌, bit_and, bit_or, Bool, true, false, not, Option, none,
  some, List, get_or, set, replicate, ◌==◌,
}

pub record Freemap : Type 0 where
  pub cur : ℕ
  pub mapsize : ℕ
  pub map : List ℕ
  pub freed : List ℕ

abbrev pub char_bit : ℕ
char_bit = 8

-- The byte `fm_map[i] | fm_freed[i]`: what may not be handed out.
abbrev pub busy_byte : Freemap → ℕ → ℕ
busy_byte m i = bit_or (get_or m.map i 0) (get_or m.freed i 0)

-- Its two allocations are taken to succeed.
unfoldable pub init : ℕ → Freemap
init mapsize = record {
  cur = 0;
  mapsize = mapsize;
  map = replicate mapsize 0;
  freed = replicate mapsize 0;
}

unfoldable pub flush : Freemap → Freemap
flush m = record m { cur = 0; freed = replicate m.mapsize 0 }

-- The inner loop of `freemap_next` over `j`, with the rounds that are left.
unfoldable pub first_clear : ℕ → ℕ → ℕ → Option ℕ
first_clear zero j val = none
first_clear (suc n) j val = elim (bit_and val (2 ^ j) == 0) [
  | true ↦ some j
  | false ↦ first_clear n (j + 1) val
]

-- The outer loop over `i`, with the rounds that are left.
unfoldable pub scan : ℕ → ℕ → Freemap → Option ℕ × Freemap
scan zero i m = (none, m)
scan (suc n) i m = elim (busy_byte m i == 255) [
  | false ↦ elim (first_clear char_bit 0 (busy_byte m i)) [
    | some j ↦ (
      some (i * char_bit + j),
      record m { map = set m.map i (bit_or (get_or m.map i 0) (2 ^ j)); cur = i },
    )
    | none ↦ scan n (i + 1) m
  ]
  | true ↦ scan n (i + 1) (record m { cur = m.cur + 1 })
]

-- `none` is the result -1.
unfoldable pub next : Freemap → Option ℕ × Freemap
unfolding scan
next m = scan (m.mapsize - m.cur) m.cur m

unfoldable pub mark : Freemap → ℕ → Freemap
mark m bit =
    let by = bit / char_bit in
    record m { map = set m.map by (bit_or (get_or m.map by 0) (2 ^ (bit % char_bit))) }

-- `fm_map[by]` is a byte, so `&= ~bi` keeps the low eight bits of the complement.
unfoldable pub unmark : Freemap → ℕ → Freemap
unmark m bit =
    let by = bit / char_bit in
    let bi = 2 ^ (bit % char_bit) in
    record m {
      freed = set m.freed by (bit_or (get_or m.freed by 0) (bit_and (get_or m.map by 0) bi));
      map = set m.map by (bit_and (get_or m.map by 0) (255 - bi));
    }

unfoldable pub is_set : Freemap → ℕ → Bool
is_set m bit = not (bit_and (get_or m.map (bit / 8) 0) (2 ^ (bit % 8)) == 0)
