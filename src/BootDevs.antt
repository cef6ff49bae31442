-- ===== src/BootDevs.antt =====
-- The boot devices of x86/common/bootdevs.c.
mod Tests
pub mod Table
pub mod Found
use cobalt_rom.Prelude.{
  ℕ, zero, suc, ◌+◌, ◌-◌, ◌*◌, ◌/◌, ◌%◌, ◌^◌, ◌≤◌, ◌<◌, max, min, ◌≡◌, ◌≢◌, ◌↔◌, ◌⊎◌, refl, sym,
  ◌∙◌, ap, inl, inr, Bool, true, false, not, ◌||◌, ◌&&◌, Bool-cases, Option, none, some,
  Option-cases, ltb, leb, ◌==◌, ==_iff, ==_false_iff, if◌then◌else◌, if_intro, bit_and, bit_or,
  bit_xor, List, [], ◌∷◌, ◌++◌, length, get_or, set, take, replicate, arith, get_or_beyond,
  length-append, get_or-append_left, get_or-append_right, get_or-take, get_or-drop, drop,
  length-take, length-drop, take_all,
}
use cobalt_rom.Text.{strcmp, is_zero}
use cobalt_rom.BootDevs.Table.{BootDev, hd_devs, sd_devs, other_devs}

abbrev pub boot_devs : List BootDev
boot_devs = hd_devs ++ (sd_devs ++ other_devs)

unfoldable pub find_name : List ℕ → List BootDev → Option BootDev
find_name name [] = none
find_name name (d ∷ ds) = if is_zero (strcmp name d.name) then some d else find_name name ds

unfoldable pub find_num : ℕ → ℕ → List BootDev → Option BootDev
find_num maj min [] = none
find_num maj min (d ∷ ds) = if (d.maj == maj) && (d.min == min) then some d else find_num maj min ds

unfoldable pub find_dev_by_name : List ℕ → Option BootDev
find_dev_by_name name = find_name name boot_devs

unfoldable pub find_dev_by_num : ℕ → Option BootDev
find_dev_by_num dev = find_num (dev / 2 ^ 8 % 256) (dev % 256) boot_devs
