-- ===== src/Text/Tests.antt =====
-- The string functions at concrete strings.
use cobalt_rom.Prelude.{◌≡◌, refl, [], ◌∷◌}
use cobalt_rom.Text.{
  stoli, hex_loop, within, isdigit, isxdigit, hexatoi, toupper, itohexs, hex_string, itohexa,
}

-- itohexs gives "0x78" for 0x01, and stoli reads 0x78 in it.
itohexs_one : itohexs 1 2 ≡ 48 ∷ 120 ∷ 55 ∷ 56 ∷ []
unfolding itohexs hex_string itohexa
itohexs_one = refl

stoli_wrong : stoli (48 ∷ 120 ∷ 55 ∷ 56 ∷ []) ≡ (0, 120)
unfolding stoli hex_loop within isxdigit isdigit hexatoi toupper
stoli_wrong = refl
