-- ===== src/Crfs/Monad.antt =====
-- Functions of crfs_func.c that change state and may fail, in a state and error monad. A failing
-- call keeps the changes that it made before it failed, as the C code does.
use cobalt_rom.Prelude.{Option, none, some}
use cobalt_rom.Crfs.State.{Errno, Result, ok, err}

abbrev pub M : Type 0 → Type 0 → Type 0
M S A = S → Result A × S

module _ {S A : Type 0} where
  abbrev pub pure : A → M S A
  pure a s = (ok a, s)

  abbrev pub throw : Errno → M S A
  throw e s = (err e, s)

  abbrev pub gets : (S → A) → M S A
  gets f s = (ok (f s), s)

  -- A step that cannot fail.
  abbrev pub run : (S → A × S) → M S A
  run f s = let (a, s') = f s in (ok a, s')

abbrev pub modify : {S : Type 0} → (S → S) → M S (Unit {0})
modify f s = (ok tt, f s)

abbrev pub and_then : {S A B : Type 0} → Result A × S → (A → M S B) → Result B × S
and_then (ok a, s) f = f a s
and_then (err e, s) f = (err e, s)

infixl 5 ◌>>=◌ ◌>>◌
abbrev pub ◌>>=◌ : {S A B : Type 0} → M S A → (A → M S B) → M S B
◌>>=◌ m f s = and_then (m s) f

abbrev pub ◌>>◌ : {S B : Type 0} → M S (Unit {0}) → M S B → M S B
m >> k = m >>= λ _. k

-- The test of an `int` result for -1, or of an entry that may be missing.
abbrev pub on_option : {S A B : Type 0} → Option A → M S B → (A → M S B) → M S B
on_option none missing found = missing
on_option (some a) missing found = found a
