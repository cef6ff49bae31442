-- ===== src/Printf/Scan/Pieces.antt =====
-- snprintf of a format that is made of characters, `%s` and `%c`.
use cobalt_rom.Prelude.{
  ℕ, zero, suc, ◌+◌, ◌-◌, ◌%◌, ◌<◌, ◌≡◌, refl, sym, ◌∙◌, ap, true, false, some, ◌==◌, if◌then◌else◌,
  ltb, List, [], ◌∷◌, ◌++◌, length, take, arith,
}
use mathlib.Core.Path.{subst}
use mathlib.Core.List.{append_assoc, append-nil}
use cobalt_rom.Text.{isdigit}
use cobalt_rom.Strbuf.{upto, Strbuf, append, appendc, init, store}
use cobalt_rom.Strbuf.Holds.{Holds, HasRoom}
use cobalt_rom.Strbuf.Append.{accepted, append_lem}
use cobalt_rom.Printf.Scan.{
  Arg, word, chars, Job, rounds, step, directive, convert, put_string, put_low, put_char,
  string_chars, sprintf_string, word_arg, scan_conv, scan_flags, scan_width, scan_precis, scan_mod,
  is_flag, scan_number, sprintf_core, vsnprintf, snprintf,
}
use cobalt_rom.Printf.Scan.Limit.{snprintf-IsWithin}

-- A character of the format, `%s` with its string, and `%c` with its character.
pub data Piece : Type 0 where
  plain : ℕ → Piece
  string : List ℕ → Piece
  single : ℕ → Piece

abbrev pub format : List Piece → List ℕ
format [] = []
format (plain c ∷ ps) = c ∷ format ps
format (string xs ∷ ps) = 37 ∷ 115 ∷ format ps
format (single c ∷ ps) = 37 ∷ 99 ∷ format ps

abbrev pub args : List Piece → List Arg
args [] = []
args (plain c ∷ ps) = args ps
args (string xs ∷ ps) = chars (some xs) ∷ args ps
args (single c ∷ ps) = word c ∷ args ps

abbrev pub text : List Piece → List ℕ
text [] = []
text (plain c ∷ ps) = c ∷ text ps
text (string xs ∷ ps) = xs ++ text ps
text (single c ∷ ps) = c ∷ text ps

-- The characters of the format are neither `%` nor NUL, those of `%c` are bytes and no NUL.
abbrev pub ArePieces : List Piece → Type 0
ArePieces [] = Unit {0}
ArePieces (plain c ∷ ps) = ((c == 37) ≡ false) × ((c == 0) ≡ false) × ArePieces ps
ArePieces (string xs ∷ ps) = ArePieces ps
ArePieces (single c ∷ ps) = (c < 256) × ((c == 0) ≡ false) × ArePieces ps

take-append :
    (m : ℕ) (xs ys : List ℕ) → take m xs ++ take (m - length (take m xs)) ys ≡ take m (xs ++ ys)
take-append zero xs ys = refl
take-append (suc m) [] ys = let all : suc m - 0 ≡ suc m = omega arith in ap (λ n. take n ys) all
take-append (suc m) (x ∷ xs) ys =
    let less : suc m - suc (length (take m xs)) ≡ m - length (take m xs) = omega arith in
    rw less (ap (λ t. x ∷ t) (take-append m xs ys))

take-nil : (m : ℕ) → ◌≡◌ {A = List ℕ} (take m []) []
take-nil zero = refl
take-nil (suc m) = refl

-- A job with a limited buffer that holds what has been printed, as far as it goes.
abbrev Printed : ℕ → List ℕ → Job → Type 0
Printed m xs j = Holds j.out (take m xs) × (j.out.max ≡ upto m)

append-Printed :
    (m : ℕ) (str xs : List ℕ) (j : Job)
    → Printed m xs j
    → (s : Strbuf) × (append str j.out ≡ some s) × Holds s (take m (xs ++ str)) × (s.max ≡ upto m)
append-Printed m str xs j h =
    let put =
      append_lem str (take m xs) j.out h.0
        (subst (λ l. HasRoom l (length (take m xs) + length str) j.out.room) (sym h.1) tt) in
    (
      put.0,
      put.1,
      subst (Holds (put.0))
          (ap (λ l. take m xs ++ accepted l (length (take m xs)) str) h.1 ∙ take-append m xs str)
          put.2,
      put.3 ∙ h.1,
    )

step-plain :
    (c : ℕ) (ps : List ℕ) (j : Job) (s : Strbuf)
    → (c == 37) ≡ false
    → (c == 0) ≡ false
    → append (c ∷ []) j.out ≡ some s
    → step c ps j ≡ some (ps, record j { out = s })
unfolding step put_char appendc
step-plain c ps j s np nz e = rw (np, nz, e) refl

step-string :
    (xs ps : List ℕ) (vs : List Arg) (j : Job) (s : Strbuf)
    → j.args ≡ chars (some xs) ∷ vs
    → append xs j.out ≡ some s
    → step 37 (115 ∷ ps) j ≡ some (ps, record j { out = s; args = vs })
unfolding step directive scan_conv scan_flags scan_width scan_precis scan_mod is_flag isdigit
    scan_number convert put_string sprintf_string string_chars
step-string xs ps vs j s h e = rw (h, e) refl

step-single :
    (c : ℕ) (ps : List ℕ) (vs : List Arg) (j : Job) (s : Strbuf)
    → c < 256
    → (c == 0) ≡ false
    → j.args ≡ word c ∷ vs
    → append (c ∷ []) j.out ≡ some s
    → step 37 (99 ∷ ps) j ≡ some (ps, record j { out = s; args = vs })
unfolding step directive scan_conv scan_flags scan_width scan_precis scan_mod is_flag isdigit
    scan_number convert put_low word_arg put_char appendc
step-single c ps vs j s lt nz h e =
    let byte : c % 256 ≡ c = omega (arith, lt) in rw (h, byte, nz, e) refl

rounds-Printed :
    (f m : ℕ) (ps : List Piece) (xs : List ℕ) (j : Job)
    → ArePieces ps
    → Printed m xs j
    → j.args ≡ args ps
    → length (format ps) < f
    → (j' : Job) × (rounds f (format ps) j ≡ some j') × Printed m (xs ++ text ps) j'
unfolding rounds
rounds-Printed zero m ps xs j pieces h vs fuel = absurd (omega (arith, fuel))
rounds-Printed (suc f) m [] xs j pieces h vs fuel =
    (j, refl, subst (λ t. Printed m t j) (sym (append-nil xs)) h)
rounds-Printed (suc f) m (plain c ∷ ps) xs j pieces h vs fuel =
    let put = append-Printed m (c ∷ []) xs j h in
    let more =
      rounds-Printed f m ps (xs ++ c ∷ []) (record j { out = put.0 }) pieces.2 (put.2, put.3) vs
        (omega (arith, fuel)) in
    (
      more.0,
      rw (step-plain c (format ps) j put.0 pieces.0 pieces.1 put.1) more.1,
      subst (λ t. Printed m t more.0) (append_assoc xs (c ∷ []) (text ps)) more.2,
    )
rounds-Printed (suc f) m (string ys ∷ ps) xs j pieces h vs fuel =
    let put = append-Printed m ys xs j h in
    let more =
      rounds-Printed f m ps (xs ++ ys) (record j { out = put.0; args = args ps }) pieces
        (put.2, put.3) refl (omega (arith, fuel)) in
    (
      more.0,
      rw (step-string ys (format ps) (args ps) j put.0 vs put.1) more.1,
      subst (λ t. Printed m t more.0) (append_assoc xs ys (text ps)) more.2,
    )
rounds-Printed (suc f) m (single c ∷ ps) xs j pieces h vs fuel =
    let put = append-Printed m (c ∷ []) xs j h in
    let more =
      rounds-Printed f m ps (xs ++ c ∷ []) (record j { out = put.0; args = args ps }) pieces.2
        (put.2, put.3) refl (omega (arith, fuel)) in
    (
      more.0,
      rw (step-single c (format ps) (args ps) j put.0 pieces.0 pieces.1 vs put.1) more.1,
      subst (λ t. Printed m t more.0) (append_assoc xs (c ∷ []) (text ps)) more.2,
    )

-- Of a format of characters, `%s` and `%c`, with arguments of these types and as much memory as the
-- length `m + 1` says, snprintf has a result: the memory holds the first `m` characters of the text
-- and a NUL, and from place `m + 1` on it is as it was. The characters of the format are neither
-- `%` nor NUL, and those of `%c` are bytes other than NUL.
pub snprintf-pieces :
    (m room : ℕ) (old : ℕ → ℕ) (ps : List Piece)
    → m < room
    → ArePieces ps
    → (j : Job) × (snprintf (room, old) (m + 1) (format ps) (args ps) ≡ some j)
      × Holds j.out (take m (text ps))
      × ((k : ℕ) → m < k → j.out.buf k ≡ old k)
unfolding snprintf vsnprintf init store sprintf_core
snprintf-pieces m room old ps fits pieces = (
  run.0,
  begun ∙ run.1,
  run.2.0,
  (snprintf-IsWithin m room old (format ps) (args ps) run.0 fits (begun ∙ run.1)).2,
)
  where
    start : Job
    start = record {
      out = record { len = 0; max = upto m; room = room; buf = λ i. if i == 0 then 0 else old i };
      args = args ps;
      counts = [];
    }

    begun :
        snprintf (room, old) (m + 1) (format ps) (args ps)
        ≡ rounds (length (format ps) + 1) (format ps) start
    begun =
        let limited : ltb 0 (m + 1) ≡ true = ground arith in
        let last : m + 1 - 1 ≡ m = omega arith in
        let inside : ltb 0 room ≡ true = ground (arith, fits) in rw (limited, last, inside) refl

    empty : Holds start.out []
    empty =
        ((refl, λ k lt. absurd (omega (arith, lt))), refl, omega (arith, fits), (omega arith, fits))

    run :
        (j : Job) × (rounds (length (format ps) + 1) (format ps) start ≡ some j)
        × Printed m (text ps) j
    run =
        rounds-Printed (length (format ps) + 1) m ps [] start pieces
          (subst (Holds start.out) (sym (take-nil m)) empty, refl) refl (omega arith)
