-- ===== src/Crfs/Layout/Strings.antt =====
-- C strings in a block.
use cobalt_rom.Prelude.{
  ℕ, zero, suc, ◌+◌, ◌≤◌, ◌<◌, ◌≡◌, refl, ◌∙◌, ap, false, List, [], ◌∷◌, length, get_or, ◌==◌,
  if◌then◌else◌, arith,
}
use cobalt_rom.Crfs.Layout.{Block, string_from}

pub string_from-suc :
    (n : ℕ) (b : Block) (o : ℕ)
    → string_from (suc n) b o ≡ (if b o == 0 then [] else b o ∷ string_from n b (o + 1))
unfolding string_from
string_from-suc n b o = ground arith

-- A string ends at its first NUL: two blocks that agree up to one hold the same string.
pub string_from-agree :
    (n o m : ℕ) (b b' : Block)
    → ((k : ℕ) → o ≤ k → k < o + suc m → b' k ≡ b k)
    → b (o + m) ≡ 0
    → string_from n b' o ≡ string_from n b o
string_from-agree zero o m b b' agree nul = unfold string_from in refl
string_from-agree (suc n) o zero b b' agree nul =
    rw (string_from-suc n b' o, string_from-suc n b o, agree o (omega arith) (omega arith))
      (ground (arith, nul))
string_from-agree (suc n) o (suc m) b b' agree nul =
    rw
      (
        string_from-suc n b' o,
        string_from-suc n b o,
        agree o (omega arith) (omega arith),
        string_from-agree n (o + 1) m b b'
            (λ k lo hi. agree k (omega (arith, lo)) (omega (arith, hi))) next,
      )
      refl
  where
    next : b (o + 1 + m) ≡ 0
    next = ap b (omega arith) ∙ nul

-- No character is the NUL.
abbrev pub NoNul : List ℕ → Type 0
NoNul [] = Unit {0}
NoNul (c ∷ cs) = (c == 0 ≡ false) × NoNul cs

-- A block that holds the characters of a string and a NUL after them holds the string.
pub string_from-list :
    (n o : ℕ) (b : Block) (xs : List ℕ)
    → ((k : ℕ) → k ≤ length xs → b (o + k) ≡ get_or xs k 0)
    → NoNul xs
    → length xs < n
    → string_from n b o ≡ xs
string_from-list zero o b xs bytes ok fits = absurd (omega (arith, fits))
string_from-list (suc n) o b [] bytes ok fits = rw (string_from-suc n b o) (ground (arith, at_o))
  where
    at_o : b o ≡ 0
    at_o = ap b (omega arith) ∙ bytes 0 (omega arith)
string_from-list (suc n) o b (c ∷ cs) bytes ok fits =
    rw
      (
        string_from-suc n b o,
        at_o,
        ok.0,
        string_from-list n (o + 1) b cs rest ok.1 (omega (arith, fits)),
      )
      refl
  where
    at_o : b o ≡ c
    at_o = ap b (omega arith) ∙ bytes 0 (omega arith)

    rest : (k : ℕ) → k ≤ length cs → b (o + 1 + k) ≡ get_or cs k 0
    rest k h = ap b (omega arith) ∙ bytes (suc k) (omega (arith, h))
