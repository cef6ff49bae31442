-- ===== src/Printf/Number.antt =====
-- Numbers printed by sprintf_num into a string buffer and read back by stoli.
use cobalt_rom.Prelude.{
  ℕ, suc, ◌+◌, ◌-◌, ◌*◌, ◌^◌, ◌≤◌, ◌<◌, ◌≡◌, refl, sym, ◌∙◌, ap, Bool, true, false, ◌||◌, ◌&&◌,
  some, ltb, ◌==◌, List, [], ◌∷◌, ◌++◌, length, get_or, arith,
}
use mathlib.Core.Path.{subst}
use mathlib.Core.List.{append-nil, append_assoc}
use native.Mathlib.Nat.{pow-suc}
use cobalt_rom.Prelude.Bits.{all_below, all_below-true}
use cobalt_rom.Text.{isdigit, isxdigit, toupper, hexatoi, hex_loop, dec_loop, within, stoli}
use cobalt_rom.Strbuf.{Max, grow, fixed, upto, Strbuf, append, appendc}
use cobalt_rom.Strbuf.Holds.{Holds, HasRoom}
use cobalt_rom.Strbuf.Append.{accepted, append_lem}
use cobalt_rom.Printf.{
  Conv, new_conv, alt_hash, alt_upper, alt_minus, mod_unsigned, has_flag, digits, digit_chars, fill,
  sign_chars, hash_chars, append_each, precision, put_number, sprintf_num,
}
use cobalt_rom.Printf.Digits.{AllDigits, digits_lem}

dec_table :
    all_below 10 (λ d.
      isdigit (get_or (digit_chars false) d 0) && (hexatoi (get_or (digit_chars false) d 0) == d))
    ≡ true
unfolding all_below isdigit hexatoi toupper digit_chars
dec_table = refl

hex_digit : ℕ → Bool
hex_digit d =
    isxdigit (toupper (get_or (digit_chars false) d 0))
    && isxdigit (get_or (digit_chars false) d 0)
    && (hexatoi (toupper (get_or (digit_chars false) d 0)) == d)

hex_table : all_below 16 hex_digit ≡ true
unfolding all_below hex_digit isdigit isxdigit hexatoi toupper digit_chars
hex_table = refl

dec_facts :
    (d : ℕ)
    → d < 10
    → (isdigit (get_or (digit_chars false) d 0) ≡ true)
      × (hexatoi (get_or (digit_chars false) d 0) ≡ d)
dec_facts d h = ground (
  arith,
  all_below-true 10
      (λ d.
        isdigit (get_or (digit_chars false) d 0) && (hexatoi (get_or (digit_chars false) d 0) == d))
      d dec_table h,
)

hex_facts :
    (d : ℕ)
    → d < 16
    → (isxdigit (toupper (get_or (digit_chars false) d 0)) ≡ true)
      × (isxdigit (get_or (digit_chars false) d 0) ≡ true)
      × (hexatoi (toupper (get_or (digit_chars false) d 0)) ≡ d)
unfolding hex_digit
hex_facts d h = ground (arith, all_below-true 16 hex_digit d hex_table h)

dec_one :
    (d a : ℕ) (out : List ℕ)
    → d < 10
    → a * 10 + d < 2 ^ 32
    → dec_loop (get_or (digit_chars false) d 0 ∷ out) a ≡ dec_loop out (a * 10 + d)
unfolding dec_loop
dec_one d a out h small =
    let f = dec_facts d h in rw (f.0, f.1) (ap (dec_loop out) (omega (arith, small)))

hex_one :
    (d a : ℕ) (out : List ℕ)
    → d < 16
    → a * 16 + d < 2 ^ 32
    → hex_loop (get_or (digit_chars false) d 0 ∷ out) a ≡ hex_loop out (a * 16 + d)
unfolding hex_loop
hex_one d a out h small =
    let f = hex_facts d h in rw (f.0, f.2) (ap (hex_loop out) (omega (arith, small)))

isdigit-isxdigit : (c : ℕ) → isdigit c ≡ true → isxdigit c ≡ true
unfolding isxdigit
isdigit-isxdigit c h = rw h refl

-- The decimal digits of a 32-bit number, and what stoli reads in them.
decimal :
    (n : ℕ)
    → n < 2 ^ 32
    → (ds : List ℕ) × (digits (digit_chars false) 10 n ≡ some ds)
      × (stoli ds ≡ (0, n))
      × (length ds ≤ 10)
decimal n h = (found.0, found.1, read (found.0) (found.2) (found.3) (found.5), found.3)
  where
    found :
        (r : List ℕ) × (digits (digit_chars false) 10 n ≡ some r)
        × (dec_loop r 0 ≡ dec_loop [] n)
        × (length r ≤ 10)
        × (0 < length r)
        × AllDigits r
    found =
        digits_lem dec_loop (digit_chars false) 10 dec_one
          (λ d lt. isdigit-isxdigit _ ((dec_facts d lt).0))
          (λ n. (omega arith, omega arith, omega arith)) (λ n k lt. omega (arith, lt, pow-suc 10 k))
          9 n (omega (arith, h)) (omega arith) h

    not_x : (c : ℕ) → isxdigit c ≡ true → ((c == 120) || (c == 88)) ≡ false
    not_x c e = unfold isxdigit isdigit in ground (arith, e)

    second : (r : List ℕ) → AllDigits r → ((get_or r 1 0 == 120) || (get_or r 1 0 == 88)) ≡ false
    second [] a = refl
    second (x ∷ []) a = refl
    second (x ∷ y ∷ r) a = not_x y (a.1.0)

    read :
        (r : List ℕ) → dec_loop r 0 ≡ dec_loop [] n → length r ≤ 10 → AllDigits r → stoli r ≡ (0, n)
    read r e len all =
        unfold stoli dec_loop within in
        let short : ltb 12 (length r) ≡ false = ground (arith, len) in
        rw (second r all, e, short) refl

hexadecimal :
    (n : ℕ)
    → n < 2 ^ 32
    → (ds : List ℕ) × (digits (digit_chars false) 16 n ≡ some ds)
      × (stoli (48 ∷ 120 ∷ ds) ≡ (0, n))
      × (length ds ≤ 8)
hexadecimal n h = (found.0, found.1, read (found.0) (found.2) (found.3) (found.4), found.3)
  where
    found :
        (r : List ℕ) × (digits (digit_chars false) 16 n ≡ some r)
        × (hex_loop r 0 ≡ hex_loop [] n)
        × (length r ≤ 8)
        × (0 < length r)
        × AllDigits r
    found =
        digits_lem hex_loop (digit_chars false) 16 hex_one (λ d lt. (hex_facts d lt).1)
          (λ n. (omega arith, omega arith, omega arith)) (λ n k lt. omega (arith, lt, pow-suc 16 k))
          7 n (omega (arith, h)) (omega arith) h

    read :
        (r : List ℕ)
        → hex_loop r 0 ≡ hex_loop [] n
        → length r ≤ 8
        → 0 < length r
        → stoli (48 ∷ 120 ∷ r) ≡ (0, n)
    read r e len pos =
        unfold stoli hex_loop within in
        let fits : (ltb 10 (suc (suc (length r))) || (suc (suc (length r)) == 2)) ≡ false =
          ground (arith, len, pos) in
        rw (e, fits) refl

-- Without a width, a precision and the `-` flag the digits come right after the prefix.
put_number-plain :
    (s signed : Strbuf) (c : Conv) (base : ℕ) (isneg : Bool) (n : ℕ) (ds : List ℕ)
    → append_each (sign_chars c isneg ++ hash_chars c base) s ≡ some signed
    → digits (digit_chars (has_flag c.alt alt_upper)) base n ≡ some ds
    → precision c ≡ 0
    → c.width ≡ 0
    → has_flag c.alt alt_minus ≡ false
    → put_number s c base isneg n ≡ append ds signed
unfolding put_number
put_number-plain s signed c base isneg n ds e1 e2 e3 e4 e5 =
    let z : 0 - length ds ≡ 0 = omega arith in
    let z' : c.width - length (sign_chars c isneg ++ hash_chars c base) - length ds ≡ 0 =
      omega (arith, e4) in
    rw (e1, e2, e3, z, e5) (unfold fill in rw z' refl)

HasRoom-le : (m : Max) (n k room : ℕ) → k ≤ n → HasRoom m n room → HasRoom m k room
HasRoom-le grow n k room le h = tt
HasRoom-le fixed n k room le h = omega (arith, le, h)
HasRoom-le (upto m) n k room le h = tt

-- `%u`: for every 32-bit number sprintf_num stays inside nbuf and the string buffer and appends
-- characters from which stoli reads the number. A fixed buffer needs room for 10 characters, and
-- of a limited one the limit may cut them off.
pub stoli-sprintf_num :
    (n : ℕ) (xs : List ℕ) (s : Strbuf)
    → n < 2 ^ 32
    → Holds s xs
    → HasRoom s.max (length xs + 10) s.room
    → (ds : List ℕ) × (s' : Strbuf) × (sprintf_num s
          (record new_conv { modifier = mod_unsigned })
          n
          10
        ≡ some s')
      × Holds s' (xs ++ accepted s.max (length xs) ds)
      × (stoli ds ≡ (0, n))
stoli-sprintf_num n xs s h holds room =
    let d = decimal n h in
    let put =
      append_lem (d.0) xs s holds
        (HasRoom-le s.max (length xs + 10) _ s.room (omega (arith, d.3)) room) in
    (
      d.0,
      put.0,
      unfold sprintf_num append_each sign_chars hash_chars has_flag precision in
          (put_number-plain s s _ 10 _ n (d.0) refl d.1 refl refl refl ∙ put.1),
      put.2,
      d.2,
    )

append-grow :
    (str ys : List ℕ) (t : Strbuf)
    → Holds t ys
    → t.max ≡ grow
    → (t' : Strbuf) × (append str t ≡ some t') × Holds t' (ys ++ str) × (t'.max ≡ grow)
append-grow str ys t ht gt =
    let put =
      append_lem str ys t ht (subst (λ m. HasRoom m (length ys + length str) t.room) (sym gt) tt) in
    (
      put.0,
      put.1,
      subst (λ m. Holds (put.0) (ys ++ accepted m (length ys) str)) gt put.2,
      put.3 ∙ gt,
    )

append_each-grow :
    (cs xs : List ℕ) (s : Strbuf)
    → Holds s xs
    → s.max ≡ grow
    → (s' : Strbuf) × (append_each cs s ≡ some s') × Holds s' (xs ++ cs) × (s'.max ≡ grow)
unfolding append_each appendc
append_each-grow [] xs s h g = (s, refl, subst (Holds s) (sym (append-nil xs)) h, g)
append_each-grow (c ∷ cs) xs s h g =
    let one = append-grow (c ∷ []) xs s h g in
    let rest = append_each-grow cs (xs ++ c ∷ []) (one.0) (one.2) (one.3) in
    (rest.0, rw (one.1) rest.1, subst (Holds (rest.0)) (append_assoc xs (c ∷ []) cs) rest.2, rest.3)

-- `%#x` into a buffer that grows: for every 32-bit number sprintf_num stays inside nbuf and appends
-- characters from which stoli reads the number.
pub stoli-sprintf_num_hex :
    (n : ℕ) (xs : List ℕ) (s : Strbuf)
    → n < 2 ^ 32
    → Holds s xs
    → s.max ≡ grow
    → (ds : List ℕ) × (s' : Strbuf) × (sprintf_num s
          (record new_conv { alt = alt_hash; modifier = mod_unsigned })
          n
          16
        ≡ some s')
      × Holds s' (xs ++ ds)
      × (stoli ds ≡ (0, n))
stoli-sprintf_num_hex n xs s h holds g =
    let d = hexadecimal n h in
    let start = append_each-grow (48 ∷ 120 ∷ []) xs s holds g in
    let put = append-grow (d.0) (xs ++ 48 ∷ 120 ∷ []) (start.0) (start.2) (start.3) in
    (
      48 ∷ 120 ∷ d.0,
      put.0,
      unfold sprintf_num sign_chars hash_chars has_flag precision in
          (put_number-plain s (start.0) _ 16 _ n (d.0) start.1 d.1 refl refl refl ∙ put.1),
      subst (Holds (put.0)) (append_assoc xs (48 ∷ 120 ∷ []) (d.0)) put.2,
      d.2,
    )
