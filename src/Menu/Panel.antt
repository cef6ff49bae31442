-- ===== src/Menu/Panel.antt =====
-- menu_handle_lcd of x86/common/menu.c: the menus on the LCD panel and its buttons.
pub mod Places
use cobalt_rom.Prelude.{
  ℕ, zero, suc, ◌+◌, ◌-◌, ◌*◌, ◌/◌, ◌%◌, ◌^◌, ◌≤◌, ◌<◌, max, min, ◌≡◌, ◌≢◌, ◌↔◌, ◌⊎◌, refl, sym,
  ◌∙◌, ap, inl, inr, Bool, true, false, not, ◌||◌, ◌&&◌, Bool-cases, Option, none, some,
  Option-cases, ltb, leb, ◌==◌, ==_iff, ==_false_iff, if◌then◌else◌, if_intro, bit_and, bit_or,
  bit_xor, List, [], ◌∷◌, ◌++◌, length, get_or, set, take, replicate, arith, get_or_beyond,
  length-append, get_or-append_left, get_or-append_right, get_or-take, get_or-drop, drop,
  length-take, length-drop, take_all,
}
use cobalt_rom.Menu.{Action, nothing, command, submenu, Item, entries}

-- BUTTON_SELECT and so on, and lcd_button_eq.
abbrev pub button_select : ℕ
button_select = 0x80

abbrev pub button_enter : ℕ
button_enter = 0x40

abbrev pub button_up : ℕ
button_up = 0x08

abbrev pub button_down : ℕ
button_down = 0x10

abbrev pub button_left : ℕ
button_left = 0x04

abbrev pub button_right : ℕ
button_right = 0x20

-- `~a & 0xfe` of a byte.
unfoldable pub lcd_button_eq : ℕ → ℕ → Bool
lcd_button_eq a b = bit_and (255 - a) 0xfe == bit_and b 0xfe

-- `the_menu` and `item`, and the commands that have been called, with their names.
pub record Panel : Type 0 where
  pub menu : ℕ
  pub place : ℕ
  pub calls : List (ℕ × List ℕ)

-- The item at a place; `none` is the NULL that ends the items, or a place behind it.
abbrev pub item_at : List ℕ → ℕ → Option ℕ
item_at [] k = none
item_at (m ∷ ms) zero = some m
item_at (m ∷ ms) (suc k) = item_at ms k

unfoldable pub scroll_down : List ℕ → ℕ → ℕ
scroll_down ms k = elim (item_at ms (k + 1)) [ some m ↦ k + 1 | none ↦ 0 ]

-- `while (items[item + 1]) item++`, from `item + 1`; the result is `item + 1` too.
unfoldable pub to_end : ℕ → List ℕ → ℕ → ℕ
to_end zero ms k = k
to_end (suc n) ms k =
    let rest = to_end n ms (k + 1) in elim (item_at ms k) [ some m ↦ rest | none ↦ k ]

-- From the first item the loop starts at -1; a menu without items leaves it there, and the code
-- then reads in front of the items, which is `none`.
unfoldable pub scroll_up : List ℕ → ℕ → Option ℕ
scroll_up ms zero = elim (to_end (length ms + 1) ms 0) [ zero ↦ none | suc k ↦ some k ]
scroll_up ms (suc k) = some k

unfoldable pub go_up : Option ℕ → Panel → Panel
go_up none p = p
go_up (some q) p = record p { menu = q; place = 0 }

-- A command that returns goes up a menu.
unfoldable pub enter : (ℕ → Item) → ℕ → Action → Panel → Panel
enter items m nothing p = p
enter items m (command f) p =
    go_up (items p.menu).parent (record p { calls = p.calls ++ (f, (items m).cmd) ∷ [] })
enter items m (submenu ms) p = record p { menu = m; place = 0 }

unfoldable pub scrolled : Option ℕ → Panel → Option Panel
scrolled none p = none
scrolled (some k) p = some (record p { place = k })

unfoldable pub press_on : (ℕ → Item) → ℕ → ℕ → Panel → Option Panel
press_on items buttons m p =
    let ms = entries (items p.menu).action in
    if lcd_button_eq buttons button_select
      || (lcd_button_eq buttons button_right || lcd_button_eq buttons button_down)
    then some (record p { place = scroll_down ms p.place })
    else if lcd_button_eq buttons button_up || lcd_button_eq buttons button_left
    then scrolled (scroll_up ms p.place) p
    else if lcd_button_eq buttons button_enter
    then some (enter items m (items m).action p)
    else some p

-- One round of the loop, with the buttons that are read. It shows the item first; `none` is an item
-- that is not there.
unfoldable pub press : (ℕ → Item) → ℕ → Panel → Option Panel
press items buttons p = elim (item_at (entries (items p.menu).action) p.place) [
  | none ↦ none
  | some m ↦ press_on items buttons m p
]

unfoldable pub presses : (ℕ → Item) → List ℕ → Panel → Option Panel
presses items [] p = some p
presses items (b ∷ bs) p = elim (press items b p) [ none ↦ none | some q ↦ presses items bs q ]
