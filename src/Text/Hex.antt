-- ===== src/Text/Hex.antt =====
-- The hexadecimal digits of itohexs against the digits that stoli reads.
use cobalt_rom.Prelude.{ℕ, ◌<◌, ◌≡◌, refl, sym, Bool, true, false, not, ◌&&◌, leb, ◌==◌, arith}
use cobalt_rom.Prelude.Bits.{all_below, all_below-true}
use cobalt_rom.Text.{isdigit, isxdigit, hexatoi, itohexa, toupper}

same : Bool → Bool → Bool
same true b = b
same false b = not b

same_equal : (a b : Bool) → same a b ≡ true → a ≡ b
unfolding same
same_equal true b h = sym h
same_equal false true h = absurd (ground (arith, h))
same_equal false false h = refl

reads_back : ℕ → Bool
reads_back x = isxdigit (itohexa x) && (hexatoi (itohexa x) == x)

digit_table : all_below 16 (λ x. same (leb 9 x) (reads_back x)) ≡ true
unfolding all_below same reads_back isxdigit isdigit hexatoi itohexa toupper
digit_table = refl

-- The character that itohexa gives for a digit below 16 is a hexadecimal digit with that value
-- exactly when the digit is 9 or more.
pub isxdigit-itohexa :
    (x : ℕ) → x < 16 → (isxdigit (itohexa x) && (hexatoi (itohexa x) == x)) ≡ leb 9 x
unfolding reads_back
isxdigit-itohexa x h =
    sym (same_equal _ _ (all_below-true 16 (λ y. same (leb 9 y) (reads_back y)) x digit_table h))
