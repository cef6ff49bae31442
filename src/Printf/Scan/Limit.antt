-- ===== src/Printf/Scan/Limit.antt =====
-- snprintf and the end of the memory that it is given.
use cobalt_rom.Prelude.{
  ℕ, zero, suc, ◌+◌, ◌-◌, ◌%◌, ◌≤◌, ◌<◌, ◌≡◌, refl, sym, ◌∙◌, Bool, true, false, ◌||◌, Option, none,
  some, ltb, ◌==◌, if◌then◌else◌, if_intro, bit_or, List, [], ◌∷◌, ◌++◌, length, replicate, arith,
}
use cobalt_rom.Strbuf.{upto, Strbuf, init, store, append, appendc}
use cobalt_rom.Printf.{
  Conv, has_flag, alt_minus, alt_upper, alt_hash, alt_zero, mod_longlong, digits, digit_chars, fill,
  append_each, sign_chars, hash_chars, precision, pad_char, put_number, sprintf_num, sprintf_ll_num,
}
use cobalt_rom.Printf.Scan.{
  ◌>>=◌, Arg, word, wide, chars, place, Job, Scan, word_arg, wide_arg, scan_conv, put_word,
  put_wide, put_int, put_string, sprintf_string, string_chars, put_count, put_char, put_low,
  convert, directive, step, rounds, sprintf_core, vsnprintf, snprintf, unsigned, with_alt,
}
use mathlib.Core.Path.{subst}
use cobalt_rom.Printf.Scan.Within.{IsWithin, Kept, Kept-bind, Kept-then, append-Kept}

append_each-Kept :
    (cs : List ℕ) (m : ℕ) (old : ℕ → ℕ) (s : Strbuf)
    → IsWithin m old s
    → Kept m old (append_each cs s)
unfolding append_each appendc
append_each-Kept [] m old s h = h
append_each-Kept (c ∷ cs) m old s h =
    Kept-then m old (append (c ∷ []) s) (append_each cs) (append-Kept (c ∷ []) m old s h)
      (append_each-Kept cs m old)

put_number-Kept :
    (m : ℕ) (old : ℕ → ℕ) (s : Strbuf) (c : Conv) (base : ℕ) (isneg : Bool) (n : ℕ)
    → IsWithin m old s
    → Kept m old (put_number s c base isneg n)
unfolding put_number
put_number-Kept m old s c base isneg n h =
    Kept-then m old (append_each prefix s) _ (append_each-Kept prefix m old s h) (λ signed w.
      Kept-bind m old (digits (digit_chars (has_flag c.alt alt_upper)) base n) _ (λ ds.
        Kept-bind m old (fill (precision c - length ds) 48 ds) _ (λ zeros.
          if_intro {A = Option Strbuf} (Kept m old) (has_flag c.alt alt_minus)
            (λ e.
              Kept-then m old (append zeros signed) _ (append-Kept zeros m old signed w)
                (append_each-Kept (replicate (c.width - length prefix - length zeros) 32) m old))
            (λ e.
              Kept-bind m old (fill (c.width - length prefix - length zeros) (pad_char c) zeros) _
                (λ padded. append-Kept padded m old signed w)))))
  where
    prefix : List ℕ
    prefix = sign_chars c isneg ++ hash_chars c base

sprintf_num-Kept :
    (m : ℕ) (old : ℕ → ℕ) (s : Strbuf) (c : Conv) (num base : ℕ)
    → IsWithin m old s
    → Kept m old (sprintf_num s c num base)
unfolding sprintf_num
sprintf_num-Kept m old s c num base h =
    if_intro {A = Option Strbuf} (Kept m old) (ltb base 2 || ltb 16 base) (λ e. h)
      (λ e. put_number-Kept m old s c base _ _ h)

sprintf_ll_num-Kept :
    (m : ℕ) (old : ℕ → ℕ) (s : Strbuf) (c : Conv) (num base : ℕ)
    → IsWithin m old s
    → Kept m old (sprintf_ll_num s c num base)
unfolding sprintf_ll_num
sprintf_ll_num-Kept m old s c num base h =
    if_intro {A = Option Strbuf} (Kept m old) (ltb base 2 || ltb 16 base) (λ e. h)
      (λ e. put_number-Kept m old s c base _ _ h)

-- A job, where there is one, whose buffer is within its limit.
abbrev JobKept : ℕ → (ℕ → ℕ) → Option Job → Type 0
JobKept m old none = Unit
JobKept m old (some j) = IsWithin m old j.out

JobKept-out :
    (m : ℕ) (old : ℕ → ℕ) (o : Option Strbuf) (f : Strbuf → Option Job)
    → Kept m old o
    → ((s : Strbuf) → IsWithin m old s → JobKept m old (f s))
    → JobKept m old (o >>= f)
JobKept-out m old none f h k = tt
JobKept-out m old (some s) f h k = k s h

JobKept-bind :
    (m : ℕ) (old : ℕ → ℕ) {A : Type 0} (o : Option A) (f : A → Option Job)
    → ((a : A) → JobKept m old (f a))
    → JobKept m old (o >>= f)
JobKept-bind m old none f h = tt
JobKept-bind m old (some a) f h = h a

put_char-JobKept :
    (m : ℕ) (old : ℕ → ℕ) (c : ℕ) (j : Job) → IsWithin m old j.out → JobKept m old (put_char c j)
unfolding put_char appendc
put_char-JobKept m old c j h =
    JobKept-out m old (if c == 0 then append [] j.out else append (c ∷ []) j.out) _
      (if_intro {A = Option Strbuf} (Kept m old) (c == 0) (λ e. append-Kept [] m old j.out h)
        (λ e. append-Kept (c ∷ []) m old j.out h))
      (λ s w. w)

put_word-JobKept :
    (m : ℕ) (old : ℕ → ℕ) (c : Conv) (base : ℕ) (j : Job)
    → IsWithin m old j.out
    → JobKept m old (put_word c base j)
unfolding put_word
put_word-JobKept m old c base j h = JobKept-bind m old (word_arg j.args) _ (λ a.
    JobKept-out m old (sprintf_num j.out c (a.0) base) _
      (sprintf_num-Kept m old j.out c (a.0) base h) (λ s w. w))

put_int-JobKept :
    (m : ℕ) (old : ℕ → ℕ) (c : Conv) (base : ℕ) (j : Job)
    → IsWithin m old j.out
    → JobKept m old (put_int c base j)
unfolding put_int put_wide
put_int-JobKept m old c base j h =
    if_intro {A = Option Job} (JobKept m old) (has_flag c.modifier mod_longlong)
      (λ e. JobKept-bind m old (wide_arg j.args) _ (λ a.
        JobKept-out m old (sprintf_ll_num j.out c (a.0) base) _
          (sprintf_ll_num-Kept m old j.out c (a.0) base h) (λ s w. w)))
      (λ e. put_word-JobKept m old c base j h)

put_string-JobKept :
    (m : ℕ) (old : ℕ → ℕ) (c : Conv) (j : Job)
    → IsWithin m old j.out
    → JobKept m old (put_string c j)
unfolding put_string sprintf_string
put_string-JobKept m old c j h = go j.args
  where
    go :
        (vs : List Arg)
        → JobKept m old (elim vs as (λ x. Option Job) [
          | [] ↦ none
          | a ∷ ws ↦ elim a as (λ x. Option Job) [
            | chars str ↦
                append (string_chars c str) j.out >>= λ s. some (record j { out = s; args = ws })
            | word n ↦ none
            | wide n ↦ none
            | place ↦ none
          ]
        ])
    go [] = tt
    go (chars str ∷ ws) =
        JobKept-out m old (append (string_chars c str) j.out) _
          (append-Kept (string_chars c str) m old j.out h) (λ s w. w)
    go (word n ∷ ws) = tt
    go (wide n ∷ ws) = tt
    go (place ∷ ws) = tt

put_count-JobKept :
    (m : ℕ) (old : ℕ → ℕ) (j : Job) → IsWithin m old j.out → JobKept m old (put_count j)
unfolding put_count
put_count-JobKept m old j h = go j.args
  where
    go :
        (vs : List Arg)
        → JobKept m old (elim vs as (λ x. Option Job) [
          | [] ↦ none
          | a ∷ ws ↦ elim a as (λ x. Option Job) [
            | place ↦ some (record j { args = ws; counts = j.counts ++ (j.out.len ∷ []) })
            | chars str ↦ none
            | word n ↦ none
            | wide n ↦ none
          ]
        ])
    go [] = tt
    go (place ∷ ws) = h
    go (chars str ∷ ws) = tt
    go (word n ∷ ws) = tt
    go (wide n ∷ ws) = tt

convert-JobKept :
    (m : ℕ) (old : ℕ → ℕ) (p : ℕ) (c : Conv) (j : Job)
    → IsWithin m old j.out
    → JobKept m old (convert p c j)
unfolding convert put_low
convert-JobKept m old p c j h =
    if_intro {A = Option Job} J ((p == 100) || (p == 105)) (λ e. int c 10)
      (λ e.
        if_intro {A = Option Job} J (p == 111) (λ e. int (unsigned c) 8)
          (λ e.
            if_intro {A = Option Job} J (p == 88) (λ e. int (unsigned (with_alt alt_upper c)) 16)
              (λ e.
                if_intro {A = Option Job} J (p == 120) (λ e. int (unsigned c) 16)
                  (λ e.
                    if_intro {A = Option Job} J (p == 98) (λ e. int (unsigned c) 2)
                      (λ e.
                        if_intro {A = Option Job} J (p == 117) (λ e. int (unsigned c) 10)
                          (λ e.
                            if_intro {A = Option Job} J (p == 99)
                              (λ e. JobKept-bind m old (word_arg j.args) _ (λ a.
                                put_char-JobKept m old (a.0 % 256) (record j { args = a.1 }) h))
                              (λ e.
                                if_intro {A = Option Job} J (p == 115)
                                  (λ e. put_string-JobKept m old c j h)
                                  (λ e.
                                    if_intro {A = Option Job} J (p == 112)
                                      (λ e.
                                        put_word-JobKept m old
                                          (unsigned (with_alt (bit_or alt_hash alt_zero) c)) 16 j h)
                                      (λ e.
                                        if_intro {A = Option Job} J (p == 110)
                                          (λ e. put_count-JobKept m old j h)
                                          (λ e. put_char-JobKept m old p j h))))))))))
  where
    J : Option Job → Type 0
    J = JobKept m old

    int : (d : Conv) (base : ℕ) → J (put_int d base j)
    int d base = put_int-JobKept m old d base j h

-- A round, if it has a result, leaves the buffer within its limit.
abbrev RoundKept : ℕ → (ℕ → ℕ) → Option (List ℕ × Job) → Type 0
RoundKept m old none = Unit
RoundKept m old (some r) = IsWithin m old r.1.out

RoundKept-next :
    (m : ℕ) (old : ℕ → ℕ) (ps : List ℕ) (o : Option Job)
    → JobKept m old o
    → RoundKept m old (o >>= λ j. some (ps, j))
RoundKept-next m old ps none h = tt
RoundKept-next m old ps (some j) h = h

directive-RoundKept :
    (m : ℕ) (old : ℕ → ℕ) (fmt : List ℕ) (j : Job)
    → IsWithin m old j.out
    → RoundKept m old (directive fmt j)
unfolding directive
directive-RoundKept m old fmt j h = go (scan_conv fmt j.args)
  where
    letter :
        (left : List ℕ) (s : Scan)
        → RoundKept m old (elim left as (λ x. Option (List ℕ × Job)) [
          | [] ↦ none
          | p ∷ ps ↦ convert p s.conv (record j { args = s.args }) >>= λ j'. some (ps, j')
        ])
    letter [] s = tt
    letter (p ∷ ps) s =
        RoundKept-next m old ps (convert p s.conv (record j { args = s.args }))
          (convert-JobKept m old p s.conv (record j { args = s.args }) h)

    go :
        (o : Option Scan)
        → RoundKept m old (
            o >>= λ s. elim s.left as (λ x. Option (List ℕ × Job)) [
              | [] ↦ none
              | p ∷ ps ↦ convert p s.conv (record j { args = s.args }) >>= λ j'. some (ps, j')
            ])
    go none = tt
    go (some s) = letter s.left s

step-RoundKept :
    (m : ℕ) (old : ℕ → ℕ) (p : ℕ) (ps : List ℕ) (j : Job)
    → IsWithin m old j.out
    → RoundKept m old (step p ps j)
unfolding step
step-RoundKept m old p ps j h =
    if_intro {A = Option (List ℕ × Job)} (RoundKept m old) (p == 37)
      (λ e. directive-RoundKept m old ps j h)
      (λ e. RoundKept-next m old ps (put_char p j) (put_char-JobKept m old p j h))

rounds-JobKept :
    (f : ℕ) (m : ℕ) (old : ℕ → ℕ) (fmt : List ℕ) (j : Job)
    → IsWithin m old j.out
    → JobKept m old (rounds f fmt j)
unfolding rounds
rounds-JobKept zero m old fmt j h = tt
rounds-JobKept (suc f) m old [] j h = h
rounds-JobKept (suc f) m old (p ∷ ps) j h =
    go (step p ps j) (step-RoundKept m old p ps j h) (λ r w. rounds-JobKept f m old r.0 r.1 w)
  where
    go :
        (o : Option (List ℕ × Job))
        → RoundKept m old o
        → ((r : List ℕ × Job) → IsWithin m old r.1.out → JobKept m old (rounds f r.0 r.1))
        → JobKept m old (o >>= λ r. rounds f r.0 r.1)
    go none w k = tt
    go (some r) w k = k r w

-- Whatever the format and the arguments are: where snprintf with a length of `m + 1`, and as much
-- memory, has a result, its string has at most `m` characters, the NUL is behind them, and all
-- memory from `m + 1` on is as it was.
pub snprintf-IsWithin :
    (m room : ℕ) (old : ℕ → ℕ) (fmt : List ℕ) (vs : List Arg) (j : Job)
    → m < room
    → snprintf (room, old) (m + 1) fmt vs ≡ some j
    → (j.out.len ≤ m) × (j.out.buf j.out.len ≡ 0) × ((k : ℕ) → m < k → j.out.buf k ≡ old k)
unfolding snprintf vsnprintf
snprintf-IsWithin m room old fmt vs j fits run = (kept.1, kept.3, kept.4)
  where
    start : Job
    start = record {
      out = record { len = 0; max = upto m; room = room; buf = λ i. if i == 0 then 0 else old i };
      args = vs;
      counts = [];
    }

    begun : snprintf (room, old) (m + 1) fmt vs ≡ sprintf_core fmt start
    begun =
        unfold init store in
        let limited : ltb 0 (m + 1) ≡ true = ground arith in
        let last : m + 1 - 1 ≡ m = omega arith in
        let inside : ltb 0 room ≡ true = ground (arith, fits) in rw (limited, last, inside) refl

    whole : JobKept m old (sprintf_core fmt start)
    whole =
        unfold sprintf_core in
        rounds-JobKept (length fmt + 1) m old fmt start (
          refl,
          omega arith,
          fits,
          refl,
          λ k lt. let other : (k == 0) ≡ false = ground (arith, lt) in rw other refl,
        )

    kept : IsWithin m old j.out
    kept = subst (JobKept m old) (sym begun ∙ run) whole
