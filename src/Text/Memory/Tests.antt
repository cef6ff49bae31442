-- ===== src/Text/Memory/Tests.antt =====
-- Copies in a small memory.
use cobalt_rom.Prelude.{ℕ, ◌<◌, ◌≡◌, ◌⊎◌, refl, inl, some, [], ◌∷◌, get_or, arith}
use cobalt_rom.Text.Memory.{memmove, strcat}
use cobalt_rom.Text.Memory.Move.{memmove_lem}
use cobalt_rom.Text.Memory.Strings.{Lies, strcat_lem}

memmove_example : memmove 3 1 5 (λ k. k) 6 ≡ 4
memmove_example = memmove_lem 3 1 5 (λ k. k) 6

-- "ab" at 0 and "cd" at 6.
abbrev two_strings : ℕ → ℕ
two_strings k = get_or (97 ∷ 98 ∷ 0 ∷ 0 ∷ 0 ∷ 0 ∷ 99 ∷ 100 ∷ []) k 0

strcat_example :
    (m : ℕ → ℕ) × (strcat 5 0 6 two_strings ≡ some (4, m))
    × Lies m 0 (97 ∷ 98 ∷ 99 ∷ 100 ∷ [])
    × ((j : ℕ) → (j < 2) ⊎ (4 < j) → m j ≡ two_strings j)
unfolding Lies
strcat_example =
    strcat_lem 5 0 6 (97 ∷ 98 ∷ []) (99 ∷ 100 ∷ []) two_strings (refl, refl, (refl, refl, refl))
      (refl, refl, (refl, refl, refl)) (inl (omega arith)) (omega arith) (omega arith)
