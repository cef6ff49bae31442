-- ===== src/Menu.antt =====
-- The menus of x86/common/menu.c: the split of a line into arguments, the console and the LCD. A
-- pointer to an item is a number, and `items` gives what is there.
pub mod Split
pub mod Panel
mod Tests
use cobalt_rom.Prelude.{
  ℕ, zero, suc, ◌+◌, ◌-◌, ◌*◌, ◌/◌, ◌%◌, ◌^◌, ◌≤◌, ◌<◌, max, min, ◌≡◌, ◌≢◌, ◌↔◌, ◌⊎◌, refl, sym,
  ◌∙◌, ap, inl, inr, Bool, true, false, not, ◌||◌, ◌&&◌, Bool-cases, Option, none, some,
  Option-cases, ltb, leb, ◌==◌, ==_iff, ==_false_iff, if◌then◌else◌, if_intro, bit_and, bit_or,
  bit_xor, List, [], ◌∷◌, ◌++◌, length, get_or, set, take, replicate, arith, get_or_beyond,
  length-append, get_or-append_left, get_or-append_right, get_or-take, get_or-drop, drop,
  length-take, length-drop, take_all,
}
use cobalt_rom.Text.{strcmp, is_zero}

-- An item: a line that does nothing, a command with the number of its function, or a menu.
pub data Action : Type 0 where
  nothing : Action
  command : ℕ → Action
  submenu : List ℕ → Action

pub record Item : Type 0 where
  pub cmd : List ℕ
  pub action : Action
  pub parent : Option ℕ

abbrev pub entries : Action → List ℕ
entries nothing = []
entries (command f) = []
entries (submenu ms) = ms

-- Whether the console takes the item when its name fits.
abbrev pub is_active : Action → Bool
is_active nothing = false
is_active (command f) = true
is_active (submenu ms) = true

unfoldable pub same_name : List ℕ → List ℕ → Bool
same_name xs ys = is_zero (strcmp xs ys)

-- The loop over the items, from those that are still to come.
unfoldable pub search : (ℕ → Item) → List ℕ → List ℕ → Option ℕ
search items name [] = none
search items name (m ∷ ms) =
    let rest = search items name ms in
    if same_name name (items m).cmd && is_active (items m).action then some m else rest

-- The loop looks at the first item twice.
abbrev pub visited : List ℕ → List ℕ
visited [] = []
visited (m ∷ ms) = m ∷ m ∷ ms

unfoldable pub find_item : (ℕ → Item) → List ℕ → ℕ → Option ℕ
find_item items name menu = search items name (visited (entries (items menu).action))

-- What the console says to a command that fails.
pub data Complaint : Type 0 where
  wrong_number_of_arguments : Complaint
  bad_number_format : Complaint
  invalid_argument : Complaint
  unknown_error : Complaint

-- The results of a command are 32 bits, and these are -11, -12 and -13.
abbrev pub ebadnumargs : ℕ
ebadnumargs = 2 ^ 32 - 11

abbrev pub ebadnum : ℕ
ebadnum = 2 ^ 32 - 12

abbrev pub ebadarg : ℕ
ebadarg = 2 ^ 32 - 13

unfoldable pub complaint : ℕ → Option Complaint
complaint r =
    if r == 0
    then none
    else if r == ebadnumargs
    then some wrong_number_of_arguments
    else if r == ebadnum
    then some bad_number_format
    else if r == ebadarg
    then some invalid_argument
    else some unknown_error

-- What the console does with a line.
pub data Reply : Type 0 where
  blank_line : Reply
  help : Reply
  version : Reply
  history : Reply
  credits : Reply
  moved : Reply
  called : ℕ → List (List ℕ) → Option Complaint → Reply
  invalid_command : Reply

-- "?", "help", "up", "..", "ver", "version", "history" and "credits"
abbrev pub help_names : List (List ℕ)
help_names = (63 ∷ []) ∷ (104 ∷ 101 ∷ 108 ∷ 112 ∷ []) ∷ []

abbrev pub up_names : List (List ℕ)
up_names = (117 ∷ 112 ∷ []) ∷ (46 ∷ 46 ∷ []) ∷ []

abbrev pub version_names : List (List ℕ)
version_names = (118 ∷ 101 ∷ 114 ∷ []) ∷ (118 ∷ 101 ∷ 114 ∷ 115 ∷ 105 ∷ 111 ∷ 110 ∷ []) ∷ []

abbrev pub history_names : List (List ℕ)
history_names = (104 ∷ 105 ∷ 115 ∷ 116 ∷ 111 ∷ 114 ∷ 121 ∷ []) ∷ []

abbrev pub credits_names : List (List ℕ)
credits_names = (99 ∷ 114 ∷ 101 ∷ 100 ∷ 105 ∷ 116 ∷ 115 ∷ []) ∷ []

unfoldable pub is_named : List ℕ → List (List ℕ) → Bool
is_named name [] = false
is_named name (n ∷ ns) = same_name name n || is_named name ns

-- A command of a menu; `call` are the functions of the commands.
unfoldable pub obey : (ℕ → Item) → (ℕ → List (List ℕ) → ℕ) → List (List ℕ) → List ℕ → ℕ → Reply × ℕ
obey items call argv name menu = elim (find_item items name menu) [
  | none ↦ (invalid_command, menu)
  | some m ↦ elim (items m).action [
    | command f ↦ (called f argv (complaint (call f argv)), menu)
    | submenu ms ↦ (moved, m)
    | nothing ↦ (invalid_command, menu)
  ]
]

-- One line of the console, after the split, in the menu `menu`: the reply and the next menu.
unfoldable pub handle_console : (ℕ → Item) → (ℕ → List (List ℕ) → ℕ) → List (List ℕ) → ℕ → Reply × ℕ
handle_console items call [] menu = (blank_line, menu)
handle_console items call (name ∷ args) menu =
    if is_named name help_names
    then (help, menu)
    else if is_named name up_names
    then (moved, elim (items menu).parent [ some p ↦ p | none ↦ menu ])
    else if is_named name version_names
    then (version, menu)
    else if is_named name history_names
    then (history, menu)
    else if is_named name credits_names
    then (credits, menu)
    else obey items call (name ∷ args) name menu

-- The loop looks at the first item twice, which changes nothing.
search-visited :
    (items : ℕ → Item) (name ms : List ℕ) → search items name (visited ms) ≡ search items name ms
unfolding search
search-visited items name [] = refl
search-visited items name (m ∷ ms) = ground arith

pub find_item_lem :
    (items : ℕ → Item) (name : List ℕ) (menu : ℕ)
    → find_item items name menu ≡ search items name (entries (items menu).action)
unfolding find_item
find_item_lem items name menu = search-visited items name (entries (items menu).action)
