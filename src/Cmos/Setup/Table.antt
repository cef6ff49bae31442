-- ===== src/Cmos/Setup/Table.antt =====
-- The table of named flags: cmos_flags_find, cmos_flags_namefind and cmos_flags_sync of
-- x86/common/cmos.c, and the command that sets a flag, cmos_flags_func of x86/monitor/cmos.c.
use cobalt_rom.Prelude.{
  ℕ, ◌^◌, ◌<◌, ◌≡◌, refl, ◌∙◌, Bool, true, false, Option, none, some, ◌==◌, if◌then◌else◌, List, [],
  ◌∷◌, length, arith,
}
use cobalt_rom.Text.{strncmp, is_zero}
use cobalt_rom.Cmos.{Nvram, read_flag}
use cobalt_rom.Cmos.Flags.{write_flag_lem}
use cobalt_rom.Cmos.Setup.{
  Flag, Rom, debug_flag, console_flag, auto_prompt_flag, clean_boot_flag, sysfault_flag,
  nologo_flag, unique_flag, put_flag, flag_variable, set_flag_variable, load_state, load_states,
  store_states, flags_sync,
}

-- The table that the program starts with.
abbrev pub cmos_flags_table : List Flag
cmos_flags_table =
    record { name = 100 ∷ 101 ∷ 98 ∷ 117 ∷ 103 ∷ []; flag = debug_flag; state = false }
    ∷ record {
      name = 99 ∷ 111 ∷ 110 ∷ 115 ∷ 111 ∷ 108 ∷ 101 ∷ [];
      flag = console_flag;
      state = false;
    }
    ∷ record {
      name = 112 ∷ 114 ∷ 111 ∷ 109 ∷ 112 ∷ 116 ∷ [];
      flag = auto_prompt_flag;
      state = false;
    }
    ∷ record {
      name = 99 ∷ 108 ∷ 101 ∷ 97 ∷ 110 ∷ 95 ∷ 98 ∷ 111 ∷ 111 ∷ 116 ∷ [];
      flag = clean_boot_flag;
      state = false;
    }
    ∷ record {
      name = 115 ∷ 121 ∷ 115 ∷ 102 ∷ 97 ∷ 117 ∷ 108 ∷ 116 ∷ [];
      flag = sysfault_flag;
      state = false;
    }
    ∷ record { name = 110 ∷ 111 ∷ 108 ∷ 111 ∷ 103 ∷ 111 ∷ []; flag = nologo_flag; state = false }
    ∷ record {
      name = 117 ∷ 110 ∷ 105 ∷ 113 ∷ 117 ∷ 101 ∷ 95 ∷ 114 ∷ 111 ∷ 111 ∷ 116 ∷ [];
      flag = unique_flag;
      state = false;
    }
    ∷ []

unfoldable pub flags_namefind : List ℕ → List Flag → Option Flag
flags_namefind name [] = none
flags_namefind name (f ∷ fs) =
    if is_zero (strncmp name f.name (length name)) then some f else flags_namefind name fs

-- The write of `f->state` through the pointer that a find gives.
unfoldable pub set_state : ℕ → Bool → List Flag → List Flag
set_state flag state [] = []
set_state flag state (f ∷ fs) =
    if f.flag == flag then record f { state = state } ∷ fs else f ∷ set_state flag state fs

-- The command with a name and a state; `none` is EBADARG.
unfoldable pub flags_command : List ℕ → Bool → Rom → Option Rom
flags_command name state r = elim (flags_namefind name r.cmos_flags) [
  | none ↦ none
  | some f ↦ some (
      flags_sync true (record r {
        cmos_flags = set_state f.flag state r.cmos_flags;
        nvram = put_flag f.flag state r.nvram;
      }))
]

-- The states of the table in its order.
abbrev pub states : List Bool → List Flag → List Flag
states [] fs = fs
states (b ∷ bs) [] = []
states (b ∷ bs) (f ∷ fs) = record f { state = b } ∷ states bs fs

-- The variables with a table in some state.
abbrev pub with_states : List Bool → Rom → Rom
with_states bs r = record r { cmos_flags = states bs cmos_flags_table }

-- Storing the states of the table in the variables and loading them again gives the same table,
-- whatever the states are.
pub flags_sync-flags_sync :
    (b0 b1 b2 b3 b4 b5 b6 : Bool) (r : Rom)
    → (flags_sync false
        (flags_sync true (with_states (b0 ∷ b1 ∷ b2 ∷ b3 ∷ b4 ∷ b5 ∷ b6 ∷ []) r))).cmos_flags
      ≡ states (b0 ∷ b1 ∷ b2 ∷ b3 ∷ b4 ∷ b5 ∷ b6 ∷ []) cmos_flags_table
unfolding flags_sync store_states load_states load_state flag_variable set_flag_variable
flags_sync-flags_sync b0 b1 b2 b3 b4 b5 b6 r = refl

put_flag-reads :
    (k : ℕ) (val : Bool) (c : Nvram)
    → k < 12
    → read_flag (2 ^ k) (put_flag (2 ^ k) val c) ≡ some val
unfolding put_flag
put_flag-reads k val c h =
    let done = write_flag_lem k val c h in
    let same : (k == k) ≡ true = ground arith in rw (put_flag, done.1) (done.3 k h ∙ rw same refl)

-- The command sets the flag `nologo` in the CMOS memory to the state it is given, and the variable
-- for showing the logo to that same state, not to its opposite.
pub flags_command-nologo :
    (b0 b1 b2 b3 b4 b5 b6 state : Bool) (r : Rom)
    → (r' : Rom) × (flags_command
          (110 ∷ 111 ∷ 108 ∷ 111 ∷ 103 ∷ 111 ∷ [])
          state
          (with_states (b0 ∷ b1 ∷ b2 ∷ b3 ∷ b4 ∷ b5 ∷ b6 ∷ []) r)
        ≡ some r')
      × (read_flag nologo_flag r'.nvram ≡ some state)
      × (r'.show_logo ≡ state)
unfolding flags_command flags_namefind strncmp set_state flags_sync store_states set_flag_variable
flags_command-nologo b0 b1 b2 b3 b4 b5 b6 state r = (_, refl, written, refl)
  where
    written : read_flag nologo_flag (put_flag nologo_flag state r.nvram) ≡ some state
    written = put_flag-reads 8 state r.nvram (omega arith)
