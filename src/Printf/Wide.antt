-- ===== src/Printf/Wide.antt =====
-- sprintf_ll_num against sprintf_num.
use cobalt_rom.Prelude.{
  ℕ, ◌+◌, ◌-◌, ◌%◌, ◌^◌, ◌<◌, ◌≡◌, refl, inl, inr, true, false, not, ◌&&◌, Bool-cases, leb,
  if◌then◌else◌, arith,
}
use cobalt_rom.Strbuf.{Strbuf}
use cobalt_rom.Printf.{Conv, mod_short, mod_unsigned, has_flag, sprintf_num, sprintf_ll_num}

-- The 64 bits of a signed or unsigned number that has these 32 bits.
abbrev pub extended : Conv → ℕ → ℕ
extended c num =
    if not (has_flag c.modifier mod_unsigned) && leb (2 ^ 31) num
    then 2 ^ 64 - 2 ^ 32 + num
    else num

-- For every conversion but `%h` and every 32-bit number the two routines print the same: the one on
-- 64 bits gives for the extended number what the other gives.
pub sprintf_ll_num-extended :
    (s : Strbuf) (c : Conv) (num base : ℕ)
    → num < 2 ^ 32
    → has_flag c.modifier mod_short ≡ false
    → sprintf_ll_num s c (extended c num) base ≡ sprintf_num s c num base
unfolding sprintf_ll_num sprintf_num
sprintf_ll_num-extended s c num base h short =
    elim (Bool-cases (has_flag c.modifier mod_unsigned)) [
      | inl e ↦ rw (e, short) refl
      | inr e ↦ elim (Bool-cases (leb (2 ^ 31) num)) [
        | inl f ↦
            let wide : leb (2 ^ 63) (2 ^ 64 - 2 ^ 32 + num) ≡ true = ground (arith, h, f) in
            let size : (2 ^ 64 - (2 ^ 64 - 2 ^ 32 + num)) % 2 ^ 64 ≡ (2 ^ 32 - num) % 2 ^ 32 =
              ground (arith, h, f) in
            rw (e, short, f, wide, size) refl
        | inr f ↦
            let wide : leb (2 ^ 63) num ≡ false = ground (arith, h) in rw (e, short, f, wide) refl
      ]
    ]
