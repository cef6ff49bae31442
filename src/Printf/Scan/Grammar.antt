-- ===== src/Printf/Scan/Grammar.antt =====
-- The conversions that the scan of a format reads.
use cobalt_rom.Prelude.{
  ℕ, ◌+◌, ◌-◌, ◌*◌, ◌%◌, ◌^◌, ◌≤◌, ◌<◌, ◌≡◌, refl, ◌∙◌, Bool, true, false, ◌||◌, Option, none, some,
  leb, ◌==◌, bit_or, List, [], ◌∷◌, ◌++◌, arith,
}
use cobalt_rom.Text.{isdigit}
use cobalt_rom.Printf.{Conv, new_conv, mod_short, mod_long, mod_longlong, conv_alt_val}
use cobalt_rom.Printf.Scan.{
  Arg, is_flag, scan_flags, scan_number, scan_width, scan_signed, precis_value, scan_point,
  scan_precis, scan_mod, scan_conv,
}

-- The length modifiers.
pub data Length : Type 0 where
  plain_length : Length
  h_length : Length
  l_length : Length
  ll_length : Length
  q_length : Length

abbrev pub length_chars : Length → List ℕ
length_chars plain_length = []
length_chars h_length = 104 ∷ []
length_chars l_length = 108 ∷ []
length_chars ll_length = 108 ∷ 108 ∷ []
length_chars q_length = 113 ∷ []

abbrev pub length_flags : Length → ℕ
length_flags plain_length = 0
length_flags h_length = mod_short
length_flags l_length = mod_long
length_flags ll_length = mod_longlong
length_flags q_length = mod_longlong

-- The number that a string of digits means.
abbrev pub decimal_value : List ℕ → ℕ → ℕ
decimal_value [] n = n
decimal_value (d ∷ ds) n = decimal_value ds (n * 10 + (d - 48))

abbrev pub flags_value : List ℕ → ℕ → ℕ
flags_value [] alt = alt
flags_value (f ∷ fs) alt = flags_value fs (bit_or alt (conv_alt_val f))

abbrev pub AreFlags : List ℕ → Type 0
AreFlags [] = Unit
AreFlags (f ∷ fs) = (is_flag f ≡ true) × AreFlags fs

abbrev pub AreDigits : List ℕ → Type 0
AreDigits [] = Unit
AreDigits (d ∷ ds) = (isdigit d ≡ true) × AreDigits ds

-- A character that is none of the parts of a conversion before its specifier.
abbrev pub IsSpecifier : ℕ → Type 0
IsSpecifier c =
    (is_flag c ≡ false)
    × (isdigit c ≡ false)
    × ((c == 42) ≡ false)
    × ((c == 46) ≡ false)
    × ((c == 104) ≡ false)
    × (((c == 76) || (c == 113)) ≡ false)
    × ((c == 108) ≡ false)

abbrev pub point_chars : Option (List ℕ) → List ℕ
point_chars none = []
point_chars (some ds) = 46 ∷ ds

abbrev pub precis_of : Option (List ℕ) → Option ℕ
precis_of none = none
precis_of (some ds) = some (decimal_value ds 0)

-- Digits whose number fits an `int`.
abbrev pub IsNumber : List ℕ → Type 0
IsNumber ds = AreDigits ds × (decimal_value ds 0 < 2 ^ 31)

abbrev pub IsPrecis : Option (List ℕ) → Type 0
IsPrecis none = Unit
IsPrecis (some ds) = IsNumber ds

-- A width does not begin with a 0, which is a flag.
abbrev pub IsWidth : List ℕ → Type 0
IsWidth [] = Unit
IsWidth (d ∷ ds) = ((d == 48) ≡ false) × IsNumber (d ∷ ds)

-- The text, if there is any, does not begin with a character that passes the test.
abbrev Heads : (ℕ → Bool) → List ℕ → Type 0
Heads test [] = Unit
Heads test (c ∷ cs) = test c ≡ false

scan_flags_lem :
    (fs : List ℕ) (alt : ℕ) (rest : List ℕ)
    → AreFlags fs
    → Heads is_flag rest
    → scan_flags (fs ++ rest) alt ≡ (flags_value fs alt, rest)
unfolding scan_flags
scan_flags_lem [] alt [] flags other = refl
scan_flags_lem [] alt (c ∷ cs) flags other = rw other refl
scan_flags_lem (f ∷ fs) alt rest flags other =
    rw flags.0 (scan_flags_lem fs (bit_or alt (conv_alt_val f)) rest flags.1 other)

le-decimal_value : (ds : List ℕ) (n : ℕ) → n ≤ decimal_value ds n
le-decimal_value [] n = omega arith
le-decimal_value (d ∷ ds) n = omega (arith, le-decimal_value ds (n * 10 + (d - 48)))

scan_number_lem :
    (ds : List ℕ) (n : ℕ) (rest : List ℕ)
    → AreDigits ds
    → Heads isdigit rest
    → decimal_value ds n < 2 ^ 31
    → scan_number (ds ++ rest) n ≡ (decimal_value ds n, rest)
unfolding scan_number
scan_number_lem [] n [] digits other small = refl
scan_number_lem [] n (c ∷ cs) digits other small = rw other refl
scan_number_lem (d ∷ ds) n rest digits other small =
    let fits : (n * 10 + (d - 48)) % 2 ^ 32 ≡ n * 10 + (d - 48) =
      omega (arith, small, le-decimal_value ds (n * 10 + (d - 48))) in
    rw (digits.0, fits) (scan_number_lem ds (n * 10 + (d - 48)) rest digits.1 other small)

scan_width_lem :
    (w rest : List ℕ) (vs : List Arg) (c : Conv)
    → c.width ≡ 0
    → IsWidth w
    → Heads isdigit rest
    → Heads (λ p. p == 42) rest
    → scan_width (w ++ rest) vs c
      ≡ some (record { conv = record c { width = decimal_value w 0 }; left = rest; args = vs })
unfolding scan_width
scan_width_lem [] [] vs c z ok digit star = rw z refl
scan_width_lem [] (p ∷ ps) vs c z ok digit star = rw (star, digit, z) refl
scan_width_lem (d ∷ ds) rest vs c z ok digit star =
    let no_star : (d == 42) ≡ false = unfold isdigit in ground (arith, ok.1.0.0) in
    let small : leb (2 ^ 31) (decimal_value (d ∷ ds) 0) ≡ false = ground (arith, ok.1.1) in
    rw (no_star, ok.1.0.0, scan_number_lem (d ∷ ds) 0 rest ok.1.0 digit ok.1.1, small) refl

scan_signed_lem : (ts : List ℕ) → Heads (λ p. p == 45) ts → scan_signed ts ≡ scan_number ts 0
unfolding scan_signed scan_number
scan_signed_lem [] h = refl
scan_signed_lem (c ∷ cs) h = rw h refl

scan_point_lem :
    (ts : List ℕ) (vs : List Arg) (c : Conv)
    → Heads (λ p. p == 42) ts
    → scan_point ts vs c ≡ precis_value ts vs c
unfolding scan_point
scan_point_lem [] vs c h = refl
scan_point_lem (p ∷ ps) vs c h = rw h refl

-- What follows the digits of a precision, or these digits, starts neither with a sign nor with `*`.
Heads-digits :
    (test : ℕ → Bool) (ds rest : List ℕ)
    → ((d : ℕ) → isdigit d ≡ true → test d ≡ false)
    → AreDigits ds
    → Heads test rest
    → Heads test (ds ++ rest)
Heads-digits test [] rest other digits h = h
Heads-digits test (d ∷ ds) rest other digits h = other d digits.0

digit_facts : (d : ℕ) → isdigit d ≡ true → ((d == 42) ≡ false) × ((d == 45) ≡ false)
unfolding isdigit
digit_facts d h = (ground (arith, h), ground (arith, h))

scan_precis_lem :
    (p : Option (List ℕ)) (rest : List ℕ) (vs : List Arg) (c : Conv)
    → c.precis ≡ none
    → IsPrecis p
    → Heads isdigit rest
    → Heads (λ t. t == 42) rest
    → Heads (λ t. t == 45) rest
    → Heads (λ t. t == 46) rest
    → scan_precis (point_chars p ++ rest) vs c
      ≡ some (record { conv = record c { precis = precis_of p }; left = rest; args = vs })
unfolding scan_precis
scan_precis_lem none [] vs c z ok digit star sign point = rw z refl
scan_precis_lem none (t ∷ ts) vs c z ok digit star sign point = rw (point, z) refl
scan_precis_lem (some ds) rest vs c z ok digit star sign point =
    scan_point_lem (ds ++ rest) vs c
      (Heads-digits (λ t. t == 42) ds rest (λ d h. (digit_facts d h).0) ok.0 star)
    ∙ (unfold precis_value in
        let small : leb (2 ^ 31) (decimal_value ds 0) ≡ false = ground (arith, ok.1) in
        rw
          (
            scan_signed_lem (ds ++ rest)
                (Heads-digits (λ t. t == 45) ds rest (λ d h. (digit_facts d h).1) ok.0 sign),
            scan_number_lem ds 0 rest ok.0 digit ok.1,
            small,
          )
          refl)

scan_mod_lem :
    (l : Length) (c : ℕ) (rest : List ℕ) (k : Conv)
    → k.modifier ≡ 0
    → IsSpecifier c
    → scan_mod (length_chars l ++ c ∷ rest) k ≡ (record k { modifier = length_flags l }, c ∷ rest)
unfolding scan_mod
scan_mod_lem plain_length c rest k z ok = rw (ok.4, ok.5, ok.6, z) refl
scan_mod_lem h_length c rest k z ok = refl
scan_mod_lem l_length c rest k z ok = rw ok.6 refl
scan_mod_lem ll_length c rest k z ok = refl
scan_mod_lem q_length c rest k z ok = refl

Heads-length_chars :
    (test : ℕ → Bool) (l : Length) (c : ℕ) (rest : List ℕ)
    → (test 104 ≡ false) × (test 108 ≡ false) × (test 113 ≡ false) × (test c ≡ false)
    → Heads test (length_chars l ++ c ∷ rest)
Heads-length_chars test plain_length c rest h = h.3
Heads-length_chars test h_length c rest h = h.0
Heads-length_chars test l_length c rest h = h.1
Heads-length_chars test ll_length c rest h = h.1
Heads-length_chars test q_length c rest h = h.2

Heads-point_chars :
    (test : ℕ → Bool) (p : Option (List ℕ)) (ts : List ℕ)
    → test 46 ≡ false
    → Heads test ts
    → Heads test (point_chars p ++ ts)
Heads-point_chars test none ts point h = h
Heads-point_chars test (some ds) ts point h = point

Heads-width : (w ts : List ℕ) → IsWidth w → Heads is_flag ts → Heads is_flag (w ++ ts)
Heads-width [] ts ok h = h
Heads-width (d ∷ ds) ts ok h = unfold is_flag isdigit in ground (arith, ok.0, ok.1.0.0)

-- After `%` sprintf_core reads flags, a width that does not begin with 0, a precision after a
-- point, and a length modifier, each of which may be missing, up to the specifier, as the
-- conversion that they mean; a width or a precision is below 2 ^ 31.
pub scan_conv_lem :
    (fs w : List ℕ) (p : Option (List ℕ)) (l : Length) (c : ℕ) (rest : List ℕ) (vs : List Arg)
    → AreFlags fs
    → IsWidth w
    → IsPrecis p
    → IsSpecifier c
    → scan_conv (fs ++ (w ++ (point_chars p ++ (length_chars l ++ c ∷ rest)))) vs
      ≡ some (record {
        conv = record {
          alt = flags_value fs 0;
          width = decimal_value w 0;
          precis = precis_of p;
          modifier = length_flags l;
        };
        left = c ∷ rest;
        args = vs;
      })
unfolding scan_conv
scan_conv_lem fs w p l c rest vs flags width precis spec =
    rw
      (
        scan_flags_lem fs 0 (w ++ after_width) flags (
            Heads-width w after_width width
              (heads is_flag (unfold is_flag in (refl, refl, refl, refl, spec.0)))),
        scan_width_lem w after_width vs (record new_conv { alt = flags_value fs 0 }) refl width
            (heads isdigit (unfold isdigit in (refl, refl, refl, refl, spec.1)))
            (heads (λ t. t == 42) (refl, refl, refl, refl, spec.2)),
        scan_precis_lem p last vs with_width refl precis
            (Heads-length_chars isdigit l c rest (unfold isdigit in (refl, refl, refl, spec.1)))
            (Heads-length_chars (λ t. t == 42) l c rest (refl, refl, refl, spec.2))
            (Heads-length_chars (λ t. t == 45) l c rest (refl, refl, refl, no_sign))
            (Heads-length_chars (λ t. t == 46) l c rest (refl, refl, refl, spec.3)),
        scan_mod_lem l c rest (record with_width { precis = precis_of p }) refl spec,
      )
      refl
  where
    with_width : Conv
    with_width = record new_conv { alt = flags_value fs 0; width = decimal_value w 0 }

    last : List ℕ
    last = length_chars l ++ c ∷ rest

    after_width : List ℕ
    after_width = point_chars p ++ last

    no_sign : (c == 45) ≡ false
    no_sign = unfold is_flag in ground (arith, spec.0)

    heads :
        (test : ℕ → Bool)
        → (test 46 ≡ false)
          × (test 104 ≡ false)
          × (test 108 ≡ false)
          × (test 113 ≡ false)
          × (test c ≡ false)
        → Heads test after_width
    heads test h =
        Heads-point_chars test p last h.0 (Heads-length_chars test l c rest (h.1, h.2, h.3, h.4))
