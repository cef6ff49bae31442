-- ===== src/Menu/Panel/Places.antt =====
-- The panel stays on items that there are.
use cobalt_rom.Prelude.{
  ℕ, zero, suc, ◌+◌, ◌-◌, ◌≤◌, ◌<◌, ◌≡◌, refl, sym, ◌∙◌, ap, inl, inr, false, ◌||◌, Bool-cases,
  Option, none, some, ltb, ◌==◌, if◌then◌else◌, if_intro, List, [], ◌∷◌, ◌++◌, length, arith,
}
use mathlib.Core.Path.{subst}
use cobalt_rom.Menu.{Action, nothing, command, submenu, Item, entries}
use cobalt_rom.Menu.Panel.{
  Panel, lcd_button_eq, button_select, button_right, button_down, button_up, button_left,
  button_enter, item_at, scroll_down, to_end, scroll_up, go_up, enter, scrolled, press_on, press,
  presses,
}

item_at-some : (ms : List ℕ) (k : ℕ) → k < length ms → (m : ℕ) × (item_at ms k ≡ some m)
item_at-some [] k h = absurd (omega (arith, h))
item_at-some (m ∷ ms) zero h = (m, refl)
item_at-some (m ∷ ms) (suc k) h = item_at-some ms k (omega (arith, h))

item_at-none : (ms : List ℕ) (k : ℕ) → length ms ≤ k → item_at ms k ≡ none
item_at-none [] k h = refl
item_at-none (m ∷ ms) zero h = absurd (omega (arith, h))
item_at-none (m ∷ ms) (suc k) h = item_at-none ms k (omega (arith, h))

-- SELECT, RIGHT and DOWN go to the next item, and from the last to the first.
scroll_down_lem :
    (ms : List ℕ) (k : ℕ)
    → k < length ms
    → scroll_down ms k ≡ (if ltb (k + 1) (length ms) then k + 1 else 0)
unfolding scroll_down
scroll_down_lem ms k h = elim (Bool-cases (ltb (k + 1) (length ms))) [
  | inl e ↦ rw (e, scroll_down, (item_at-some ms (k + 1) (ground (arith, e))).1) refl
  | inr e ↦ rw (e, scroll_down, item_at-none ms (k + 1) (ground (arith, e))) refl
]

to_end_lem : (n k : ℕ) (ms : List ℕ) → k ≤ length ms → length ms - k < n → to_end n ms k ≡ length ms
unfolding to_end
to_end_lem zero k ms h fuel = absurd (omega (arith, fuel))
to_end_lem (suc n) k ms h fuel = elim (Bool-cases (ltb k (length ms))) [
  | inl e ↦
      rw (to_end, (item_at-some ms k (ground (arith, e))).1)
        (to_end_lem n (k + 1) ms (ground (arith, e)) (ground (arith, e, fuel)))
  | inr e ↦
      let z : k ≡ length ms = ground (arith, e, h) in
      rw (to_end, item_at-none ms k (omega (arith, z))) z
]

scroll_up_lem :
    (ms : List ℕ) (k : ℕ)
    → k < length ms
    → scroll_up ms k ≡ some (if k == 0 then length ms - 1 else k - 1)
unfolding scroll_up
scroll_up_lem (m ∷ ms) zero h =
    rw (scroll_up, to_end_lem (length (m ∷ ms) + 1) 0 (m ∷ ms) (omega arith) (omega arith))
      (ap some (omega arith))
scroll_up_lem [] zero h = absurd (omega (arith, h))
scroll_up_lem ms (suc k) h =
    let nz : (suc k == 0) ≡ false = ground arith in rw nz (ap some (omega arith))

-- Up after down and down after up come back to the same item.
pub scroll_up-scroll_down :
    (ms : List ℕ) (k : ℕ)
    → k < length ms
    → (scroll_up ms (scroll_down ms k) ≡ some k)
      × ((up : ℕ) × (scroll_up ms k ≡ some up) × (scroll_down ms up ≡ k))
scroll_up-scroll_down ms k h = (
  ap (scroll_up ms) (scroll_down_lem ms k h)
      ∙ scroll_up_lem ms _ (
          if_intro {A = ℕ} (λ n. n < length ms) (ltb (k + 1) (length ms)) (λ e. ground (arith, e))
            (λ e. omega (arith, h)))
      ∙ ap some (ground (arith, h)),
  (
    if k == 0 then length ms - 1 else k - 1,
    scroll_up_lem ms k h,
    scroll_down_lem ms _ (
          if_intro {A = ℕ} (λ n. n < length ms) (k == 0) (λ e. omega (arith, h))
            (λ e. omega (arith, h)))
        ∙ ground (arith, h),
  ),
)

-- Menus that have items, and whose menus and parents are such menus.
abbrev pub AreMenus : (ℕ → Item) → (ℕ → Type 0) → Type 0
AreMenus items IsMenu =
    (id : ℕ)
    → IsMenu id
    → (0 < length (entries (items id).action))
      × ((m k : ℕ) (ms : List ℕ)
          → item_at (entries (items id).action) k ≡ some m
          → (items m).action ≡ submenu ms
          → IsMenu m)
      × ((q : ℕ) → (items id).parent ≡ some q → IsMenu q)

abbrev pub IsPlaced : (ℕ → Item) → (ℕ → Type 0) → Panel → Type 0
IsPlaced items IsMenu p = IsMenu p.menu × (p.place < length (entries (items p.menu).action))

go_up-IsPlaced :
    (items : ℕ → Item) (IsMenu : ℕ → Type 0) (o : Option ℕ) (p : Panel)
    → AreMenus items IsMenu
    → IsPlaced items IsMenu p
    → ((q : ℕ) → o ≡ some q → IsMenu q)
    → IsPlaced items IsMenu (go_up o p)
unfolding go_up
go_up-IsPlaced items IsMenu none p menus h ups = h
go_up-IsPlaced items IsMenu (some q) p menus h ups = (ups q refl, (menus q (ups q refl)).0)

enter-IsPlaced :
    (items : ℕ → Item) (IsMenu : ℕ → Type 0) (m : ℕ) (a : Action) (p : Panel)
    → AreMenus items IsMenu
    → IsPlaced items IsMenu p
    → item_at (entries (items p.menu).action) p.place ≡ some m
    → (items m).action ≡ a
    → IsPlaced items IsMenu (enter items m a p)
unfolding enter
enter-IsPlaced items IsMenu m nothing p menus h found is = h
enter-IsPlaced items IsMenu m (command f) p menus h found is =
    go_up-IsPlaced items IsMenu (items p.menu).parent
      (record p { calls = p.calls ++ (f, (items m).cmd) ∷ [] }) menus h (menus p.menu h.0).2
enter-IsPlaced items IsMenu m (submenu ms) p menus h found is =
    let sub = (menus p.menu h.0).1 m p.place ms found is in (sub, (menus m sub).0)

-- A panel, where there is one, that stands on an item.
abbrev pub Stays : (ℕ → Item) → (ℕ → Type 0) → Option Panel → Type 0
Stays items IsMenu o = (q : Panel) × (o ≡ some q) × IsPlaced items IsMenu q

press_on-Stays :
    (items : ℕ → Item) (IsMenu : ℕ → Type 0) (buttons m : ℕ) (p : Panel)
    → AreMenus items IsMenu
    → IsPlaced items IsMenu p
    → item_at (entries (items p.menu).action) p.place ≡ some m
    → Stays items IsMenu (press_on items buttons m p)
unfolding press_on
press_on-Stays items IsMenu buttons m p menus h found =
    if_intro {A = Option Panel} (Stays items IsMenu)
      (lcd_button_eq buttons button_select
        || (lcd_button_eq buttons button_right || lcd_button_eq buttons button_down))
      (λ e. (record p { place = scroll_down ms p.place }, refl, (h.0, down)))
      (λ e.
        if_intro {A = Option Panel} (Stays items IsMenu)
          (lcd_button_eq buttons button_up || lcd_button_eq buttons button_left)
          (λ f.
            subst (λ o. Stays items IsMenu (scrolled o p)) (sym (scroll_up_lem ms p.place h.1))
              (unfold scrolled in (record p { place = up_place }, refl, (h.0, up))))
          (λ f.
            if_intro {A = Option Panel} (Stays items IsMenu) (lcd_button_eq buttons button_enter)
              (λ g. (
                enter items m (items m).action p,
                refl,
                enter-IsPlaced items IsMenu m (items m).action p menus h found refl,
              ))
              (λ g. (p, refl, h))))
  where
    ms : List ℕ
    ms = entries (items p.menu).action

    up_place : ℕ
    up_place = if p.place == 0 then length ms - 1 else p.place - 1

    down : scroll_down ms p.place < length ms
    down =
        subst (λ k. k < length ms) (sym (scroll_down_lem ms p.place h.1))
          (if_intro {A = ℕ} (λ k. k < length ms) (ltb (p.place + 1) (length ms))
            (λ e. ground (arith, e)) (λ e. omega (arith, h.1)))

    up : up_place < length ms
    up =
        if_intro {A = ℕ} (λ k. k < length ms) (p.place == 0) (λ e. omega (arith, h.1))
          (λ e. omega (arith, h.1))

press-some :
    (items : ℕ → Item) (buttons m : ℕ) (p : Panel)
    → item_at (entries (items p.menu).action) p.place ≡ some m
    → press items buttons p ≡ press_on items buttons m p
unfolding press
press-some items buttons m p found = rw (press, found) refl

press-Stays :
    (items : ℕ → Item) (IsMenu : ℕ → Type 0) (buttons : ℕ) (p : Panel)
    → AreMenus items IsMenu
    → IsPlaced items IsMenu p
    → Stays items IsMenu (press items buttons p)
press-Stays items IsMenu buttons p menus h =
    let found = item_at-some (entries (items p.menu).action) p.place h.1 in
    subst (Stays items IsMenu) (sym (press-some items buttons (found.0) p found.1))
      (press_on-Stays items IsMenu buttons (found.0) p menus h found.1)

-- Whatever buttons are pressed, the panel stays on items that there are, if it starts on one, and
-- if each menu has items, its menus are such menus, and so is its parent.
pub presses-IsPlaced :
    (items : ℕ → Item) (IsMenu : ℕ → Type 0) (bs : List ℕ) (p : Panel)
    → AreMenus items IsMenu
    → IsPlaced items IsMenu p
    → (q : Panel) × (presses items bs p ≡ some q) × IsPlaced items IsMenu q
unfolding presses
presses-IsPlaced items IsMenu [] p menus h = (p, refl, h)
presses-IsPlaced items IsMenu (b ∷ bs) p menus h =
    let one = press-Stays items IsMenu b p menus h in
    let rest = presses-IsPlaced items IsMenu bs (one.0) menus one.2 in
    (rest.0, rw (presses, one.1) rest.1, rest.2)
