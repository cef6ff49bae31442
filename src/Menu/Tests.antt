-- ===== src/Menu/Tests.antt =====
-- Lines and menus at concrete values.
use cobalt_rom.Prelude.{
  ℕ, zero, suc, ◌+◌, ◌≡◌, ◌≢◌, refl, ap, Option, none, some, List, [], ◌∷◌, length, arith,
}
use cobalt_rom.Menu.{command, submenu, Item}
use cobalt_rom.Menu.Split.{isblank, isquote, Splitter, split_buffer}
use cobalt_rom.Menu.Split.Words.{words, words_from, strings, split_buffer-words}
use cobalt_rom.Menu.Panel.{Panel, presses, button_select, button_up, button_enter}
use cobalt_rom.Menu.Panel.Places.{AreMenus, IsPlaced, presses-IsPlaced}

-- "ls  b"
abbrev line : List ℕ
line = 108 ∷ 115 ∷ 32 ∷ 32 ∷ 98 ∷ []

words-line : words line ≡ (108 ∷ 115 ∷ []) ∷ (98 ∷ []) ∷ []
unfolding words words_from isblank
words-line = refl

split_buffer-words_example :
    (s : Splitter) × (split_buffer line ≡ some s)
    × (strings (length line + 1) s.argv s.mem ≡ words line)
split_buffer-words_example =
    split_buffer-words line
      (unfold isquote in (refl, refl, (refl, refl, (refl, refl, (refl, refl, (refl, refl, tt))))))
      (omega (arith, ap length words-line))

-- Menu 0 with the command 1 and the menu 2, which has the command 1 and the parent 0.
abbrev items : ℕ → Item
items zero = record { cmd = []; action = submenu (1 ∷ 2 ∷ []); parent = none }
items (suc zero) = record { cmd = 98 ∷ []; action = command 7; parent = none }
items (suc (suc k)) = record { cmd = 99 ∷ []; action = submenu (1 ∷ []); parent = some 0 }

abbrev IsMenu : ℕ → Type 0
IsMenu id = id ≢ 1

one_is_no_menu : (m : ℕ) (ms : List ℕ) → (items m).action ≡ submenu ms → m ≡ 1 → ⊥
one_is_no_menu zero ms is e = omega (arith, e)
one_is_no_menu (suc zero) ms is e = cc
one_is_no_menu (suc (suc k)) ms is e = omega (arith, e)

items-AreMenus : AreMenus items IsMenu
items-AreMenus zero is = (omega arith, (λ m k ms at. one_is_no_menu m ms), λ q e o. cc)
items-AreMenus (suc zero) is = absurd (is refl)
items-AreMenus (suc (suc k)) is =
    (omega arith, (λ m k' ms at. one_is_no_menu m ms), λ q e o. omega (arith, o, parent_of e))
  where
    parent_of : {q : ℕ} → some 0 ≡ some q → 0 ≡ q
    parent_of e = ap (λ (x : Option ℕ). elim x as (λ y. ℕ) [ none ↦ 0 | some n ↦ n ]) e

presses-IsPlaced_example :
    (q : Panel) × (presses items
        (button_select ∷ button_enter ∷ button_up ∷ [])
        (record { menu = 0; place = 0; calls = [] })
      ≡ some q)
    × IsPlaced items IsMenu q
presses-IsPlaced_example =
    presses-IsPlaced items IsMenu (button_select ∷ button_enter ∷ button_up ∷ [])
      (record { menu = 0; place = 0; calls = [] }) items-AreMenus (omega arith, omega arith)
