-- ===== src/Strbuf/Tests.antt =====
-- String buffers with a limit, at a concrete string.
use cobalt_rom.Prelude.{ℕ, ◌≤◌, ◌<◌, ◌≡◌, refl, none, some, List, [], ◌∷◌, ◌++◌, get_or, arith}
use cobalt_rom.Strbuf.{
  upto, Strbuf, append, insert, delete, is_over, memmove, copy_in, realloc, first_nul,
}
use cobalt_rom.Strbuf.Holds.{Holds}
use cobalt_rom.Strbuf.Append.{accepted, append_lem}
use cobalt_rom.Strbuf.Insert.{inserted, insert_lem}
use cobalt_rom.Strbuf.Delete.{deleted, delete_lem}

-- "abc"
abbrev abc : List ℕ
abc = 97 ∷ 98 ∷ 99 ∷ []

abbrev limited : ℕ → Strbuf
limited m = record { len = 3; max = upto m; room = 9; buf = λ i. get_or abc i 0 }

limited-Holds : (m : ℕ) → 3 ≤ m → m < 9 → Holds (limited m) abc
limited-Holds m lo hi = ((refl, λ k lt. refl), refl, omega arith, (lo, hi))

append_example :
    (s' : Strbuf) × (append abc (limited 5) ≡ some s')
    × Holds s' (abc ++ accepted (upto 5) 3 abc)
    × (s'.max ≡ upto 5)
append_example = append_lem abc abc (limited 5) (limited-Holds 5 (omega arith) (omega arith)) tt

insert_example :
    (s' : Strbuf) × (insert 1 abc (limited 8) ≡ some s')
    × Holds s' (inserted 1 abc abc)
    × (s'.max ≡ upto 8)
insert_example =
    insert_lem 1 abc abc (limited 8) (limited-Holds 8 (omega arith) (omega arith)) (omega arith)
      (omega arith) tt

delete_example :
    (s' : Strbuf) × (delete 1 2 (limited 8) ≡ some s')
    × Holds s' (deleted 1 2 abc)
    × (s'.max ≡ upto 8)
delete_example =
    delete_lem 1 2 abc (limited 8) (limited-Holds 8 (omega arith) (omega arith)) (omega arith)
      (omega arith)

-- An insertion at the end that the limit does not allow writes past the memory of the buffer.
insert_past :
    insert 3 abc (record { len = 3; max = upto 4; room = 5; buf = λ i. get_or abc i 0 }) ≡ none
unfolding insert memmove copy_in realloc first_nul is_over
insert_past = refl
