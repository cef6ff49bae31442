-- ===== src/Readline/Ends.antt =====
-- The loop of readline ends.
pub mod Result
use cobalt_rom.Prelude.{
  ℕ, zero, suc, ◌+◌, ◌*◌, ◌<◌, ◌≡◌, refl, ap, Bool, true, false, not, ◌&&◌, Option, none, some, ltb,
  ◌==◌, if◌then◌else◌, List, [], ◌∷◌, ◌++◌, length, get_or, arith, drop, length-drop,
}
use cobalt_rom.Text.{isdigit, isalnum, isspace}
use cobalt_rom.Readline.{
  History, ReadlineState, st_line, st_bang, st_bangnum, st_bangstr, st_slashesc, st_sqstr, st_dqstr,
  Reader, Round, next, again, success, fail, fault, expand, put_bbuf, round, rounds, new_reader,
  fuel_for,
}

-- How many rounds a state may take on one character before it goes on to the next.
abbrev weight : ReadlineState → ℕ
weight st_bang = 2
weight st_bangnum = 1
weight st_bangstr = 1
weight st_line = 0
weight st_slashesc = 0
weight st_sqstr = 0
weight st_dqstr = 0

-- A round that is not the last one leaves less to do, where `n` characters and then a NUL are left
-- and `w` bounds the rounds.
abbrev Ends : ℕ → ℕ → Round → Type 0
Ends n w (next r) = (weight r.state + 3 * n < w + 3) × (weight r.pushed_state ≡ 0) × (0 < n)
Ends n w (again r) = (weight r.state + 3 * n < w) × (weight r.pushed_state ≡ 0)
Ends n w (success r) = Unit {0}
Ends n w (fail r) = Unit {0}
Ends n w fault = Unit {0}

expand-Ends :
    (n w : ℕ) (o : Option (Option (List ℕ))) (k : Reader → Round) (r : Reader)
    → ((p : List ℕ) → Ends n w (k (record r { buf = r.buf ++ p })))
    → Ends n w (expand o k r)
unfolding expand
expand-Ends n w none k r h = tt
expand-Ends n w (some none) k r h = tt
expand-Ends n w (some (some p)) k r h = h p

-- The two branches of a test, of which the second one may use that the character is not the NUL.
module _ (n w : ℕ) where
  branch :
      (b : Bool) (x y : Round)
      → (b ≡ true → Ends n w x)
      → (b ≡ false → Ends n w y)
      → Ends n w (if b then x else y)
  branch true x y h k = h refl
  branch false x y h k = k refl

round-Ends :
    (s : History) (r : Reader) (st : ReadlineState) (c n w : ℕ)
    → r.state ≡ st
    → w ≡ weight st + 3 * n
    → weight r.pushed_state ≡ 0
    → (n ≡ 0 → c ≡ 0)
    → Ends n w (round s r st c)
unfolding round put_bbuf
round-Ends s r st_line c n w e hw base nul =
    branch n w (c == 0) _ _ (λ z. tt)
      (λ z.
        let pos : 0 < n = ground (arith, z, nul) in
        let stays : weight r.state + 3 * n < w + 3 = omega (arith, hw, ap weight e) in
        branch n w (c == 33) _ _ (λ y. (omega (arith, hw), refl, pos))
          (λ y.
            branch n w (c == 92) _ _ (λ y. (omega (arith, hw), base, pos))
              (λ y.
                branch n w (c == 39) _ _ (λ y. (omega (arith, hw), refl, pos))
                  (λ y.
                    branch n w (c == 34) _ _ (λ y. (omega (arith, hw), base, pos))
                      (λ y. (stays, base, pos))))))
round-Ends s r st_bang c n w e hw base nul =
    branch n w (c == 33) _ _
      (λ y.
        let pos : 0 < n = ground (arith, y, nul) in
        expand-Ends n w _ _ _ (λ p. (omega (arith, hw), base, pos)))
      (λ y.
        branch n w (isdigit c) _ _ (λ y. (omega (arith, hw), base))
          (λ y. branch n w (isalnum c) _ _ (λ y. (omega (arith, hw), base)) (λ y. tt)))
round-Ends s r st_bangnum c n w e hw base nul =
    branch n w (isdigit c) _ _
      (λ y.
        let pos : 0 < n = unfold isdigit in ground (arith, y, nul) in
        branch n w (ltb (length r.bbuf) 127) _ _ (λ z. (omega (arith, hw, ap weight e), base, pos))
          (λ z. tt))
      (λ y. expand-Ends n w _ _ _ (λ p. (omega (arith, hw, base), base)))
round-Ends s r st_bangstr c n w e hw base nul =
    branch n w (not (c == 0) && not (isspace c)) _ _
      (λ y.
        let pos : 0 < n = ground (arith, y, nul) in
        branch n w (ltb (length r.bbuf) 127) _ _ (λ z. (omega (arith, hw, ap weight e), base, pos))
          (λ z. tt))
      (λ y. expand-Ends n w _ _ _ (λ p. (omega (arith, hw, base), base)))
round-Ends s r st_slashesc c n w e hw base nul =
    branch n w (c == 0) _ _ (λ z. tt) (λ z. (omega (arith, hw), base, ground (arith, z, nul)))
round-Ends s r st_sqstr c n w e hw base nul =
    branch n w (c == 39) _ _ (λ y. (omega (arith, hw, base), base, ground (arith, y, nul)))
      (λ y.
        branch n w (c == 0) _ _ (λ z. tt)
          (λ z. (omega (arith, hw, ap weight e), base, ground (arith, z, nul))))
round-Ends s r st_dqstr c n w e hw base nul =
    branch n w (c == 34) _ _ (λ y. (omega (arith, hw), base, ground (arith, y, nul)))
      (λ y.
        branch n w (c == 0) _ _ (λ z. tt)
          (λ z.
            let pos : 0 < n = ground (arith, z, nul) in
            branch n w (c == 33) _ _ (λ y. (omega (arith, hw), refl, pos))
              (λ y.
                branch n w (c == 39) _ _ (λ y. (omega (arith, hw), refl, pos))
                  (λ y. (omega (arith, hw, ap weight e), base, pos)))))

rounds-some :
    (f : ℕ) (s : History) (cs : List ℕ) (r : Reader)
    → weight r.pushed_state ≡ 0
    → weight r.state + 3 * length cs < f
    → (w : Round) × (rounds f s cs r ≡ some w)
unfolding rounds
rounds-some zero s cs r base fuel = absurd (omega (arith, fuel))
rounds-some (suc f) s cs r base fuel =
    go (round s r r.state (get_or cs 0 0))
      (round-Ends s r r.state (get_or cs 0 0) (length cs) _ refl refl base (first cs))
      (λ r' b lt. rounds-some f s (drop 1 cs) r' b lt) (λ r' b lt. rounds-some f s cs r' b lt)
  where
    first : (cs : List ℕ) → length cs ≡ 0 → get_or cs 0 0 ≡ 0
    first [] h = refl
    first (x ∷ xs) h = absurd (omega (arith, h))

    go :
        (w : Round)
        → Ends (length cs) (weight r.state + 3 * length cs) w
        → ((r' : Reader)
            → weight r'.pushed_state ≡ 0
            → weight r'.state + 3 * length (drop 1 cs) < f
            → (w : Round) × (rounds f s (drop 1 cs) r' ≡ some w))
        → ((r' : Reader)
            → weight r'.pushed_state ≡ 0
            → weight r'.state + 3 * length cs < f
            → (w : Round) × (rounds f s cs r' ≡ some w))
        → (w' : Round) × (elim w [
          | next r' ↦ rounds f s (drop 1 cs) r'
          | again r' ↦ rounds f s cs r'
          | success r' ↦ some (success r')
          | fail r' ↦ some (fail r')
          | fault ↦ some fault
        ]
            ≡ some w')
    go (next r') h on same = on r' h.1 (omega (arith, h.0, h.2, length-drop 1 cs, fuel))
    go (again r') h on same = same r' h.1 (omega (arith, h.0, fuel))
    go (success r') h on same = (success r', refl)
    go (fail r') h on same = (fail r', refl)
    go fault h on same = (fault, refl)

-- Whatever the line and the history are, the loop of readline ends: three rounds for each character
-- and a few more are enough.
pub rounds-fuel_for :
    (raw : List ℕ) (s : History) → (w : Round) × (rounds (fuel_for raw) s raw new_reader ≡ some w)
rounds-fuel_for raw s = rounds-some (fuel_for raw) s raw new_reader refl (omega arith)
