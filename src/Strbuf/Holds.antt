-- ===== src/Strbuf/Holds.antt =====
-- What a string buffer stands for: the list of its characters.
use cobalt_rom.Prelude.{ℕ, ◌≤◌, ◌<◌, ◌≡◌, List, length, get_or}
use cobalt_rom.Strbuf.{Max, grow, fixed, upto, Strbuf}

-- The characters are in place; nothing is said of the NUL after them.
abbrev pub Starts : Strbuf → List ℕ → Type 0
Starts s xs = (s.len ≡ length xs) × ((k : ℕ) → k < length xs → s.buf k ≡ get_or xs k 0)

-- A limited buffer has room for its limit and a NUL, and is not past its limit.
abbrev pub Limited : Max → ℕ → ℕ → Type 0
Limited grow len room = Unit {0}
Limited fixed len room = Unit {0}
Limited (upto m) len room = (len ≤ m) × (m < room)

-- The buffer holds the string `xs`, with the NUL after it in its memory.
abbrev pub Holds : Strbuf → List ℕ → Type 0
Holds s xs = Starts s xs × (s.buf (length xs) ≡ 0) × (s.len < s.room) × Limited s.max s.len s.room

-- A fixed buffer has the room for a string of `n` characters, which its caller sees to.
abbrev pub HasRoom : Max → ℕ → ℕ → Type 0
HasRoom grow n room = Unit {0}
HasRoom fixed n room = n < room
HasRoom (upto m) n room = Unit {0}
