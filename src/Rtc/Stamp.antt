-- ===== src/Rtc/Stamp.antt =====
-- The date and time that the commands of x86/monitor/rtc.c set and print, as 13 digits.
use cobalt_rom.Prelude.{
  ℕ, ◌%◌, ◌<◌, ◌≡◌, refl, ◌∙◌, ap, false, some, ◌==◌, if◌then◌else◌, bit_and, List, [], ◌∷◌, ◌++◌,
  arith,
}
use cobalt_rom.Rtc.{
  bcd2bin, bin2bcd, Vals, ok, write_rtc, read_rtc, write_each, rtc_begin_set, rtc_end_set,
  rtc_set_vals, read_bin, read_rtc_func, write_rtc_func,
}
use cobalt_rom.Rtc.Digits.{stamp, stoli-two, stoli-day, bcd_two, bcd_day, print_stamp_lem}

-- What stores leave in register `j`.
abbrev held : List (ℕ × ℕ) → ℕ → ℕ → ℕ
held [] j old = old
held ((i, v) ∷ ws) j old = held ws j (if j == i then v % 256 else old)

abbrev Below : List (ℕ × ℕ) → Type 0
Below [] = Unit {0}
Below ((i, v) ∷ ws) = (i < 0xc) × Below ws

module _ {S : Type 0} (outb : ℕ → ℕ → S → S) (inb : ℕ → S → ℕ) (reg : S → ℕ → ℕ)
    (selected : (i j : ℕ) (s : S) → reg (outb i 0x70 s) j ≡ reg s j)
    (fetched : (i : ℕ) (s : S) → inb 0x71 (outb i 0x70 s) ≡ reg s i)
    (stored : (i v j : ℕ) (s : S)
      → i < 0xc
      → reg (outb v 0x71 (outb i 0x70 s)) j ≡ (if j == i then v % 256 else reg s j)) where
  reg-write_each :
      (ws : List (ℕ × ℕ)) (s : S) (j : ℕ)
      → Below ws
      → reg (write_each outb inb ws s) j ≡ held ws j (reg s j)
  unfolding write_each write_rtc
  reg-write_each [] s j h = refl
  reg-write_each ((i, v) ∷ ws) s j (lt, h) =
      reg-write_each ws (outb v 0x71 (outb i 0x70 s)) j h ∙ ap (held ws j) (stored i v j s lt)

  reg-begin : (s : S) (j : ℕ) → (j == 0xb) ≡ false → reg (rtc_begin_set outb inb s) j ≡ reg s j
  unfolding rtc_begin_set
  reg-begin s j h = stored 0xb _ j s (omega arith) ∙ rw h refl

  reg-end : (s : S) (j : ℕ) → (j == 0xb) ≡ false → reg (rtc_end_set outb inb s) j ≡ reg s j
  unfolding rtc_end_set
  reg-end s j h = stored 0xb _ j s (omega arith) ∙ rw h refl

  writes : Vals → List (ℕ × ℕ)
  writes v =
      (0x0, v.sec % 256)
      ∷ (0x1, v.alarm_sec % 256)
      ∷ (0x2, v.minute % 256)
      ∷ (0x3, v.alarm_minute % 256)
      ∷ (0x4, v.hour % 256)
      ∷ (0x5, v.alarm_hour % 256)
      ∷ (0x6, v.day_of_week % 256)
      ∷ (0x7, v.day_of_month % 256)
      ∷ (0x8, v.month % 256)
      ∷ (0x9, v.year % 256)
      ∷ []

  reg-set_vals :
      (v : Vals) (s : S) (j : ℕ)
      → (j == 0xb) ≡ false
      → reg (rtc_set_vals outb inb v s) j ≡ held (writes v) j (reg s j)
  unfolding rtc_set_vals writes
  reg-set_vals v s j h =
      reg-end _ j h
      ∙ reg-write_each (writes v) (rtc_begin_set outb inb s) j places
      ∙ ap (held (writes v) j) (reg-begin s j h)
    where
      places : Below (writes v)
      places = (
        omega arith,
        (
          omega arith,
          (
            omega arith,
            (
              omega arith,
              (
                omega arith,
                (omega arith, (omega arith, (omega arith, (omega arith, (omega arith, tt))))),
              ),
            ),
          ),
        ),
      )

  Shows : S → ℕ → ℕ → ℕ → Type 0
  Shows t i mask v = bcd2bin (bit_and (reg t i) mask) ≡ v

  read_bin_lem :
      (i mask v : ℕ) (t s : S)
      → reg t i ≡ reg s i
      → Shows s i mask v
      → read_bin outb inb i mask t ≡ (v, outb i 0x70 t)
  unfolding read_bin read_rtc Shows
  read_bin_lem i mask v t s same h = rw (fetched i t, same, h) refl

  vals : ℕ → ℕ → ℕ → ℕ → ℕ → ℕ → ℕ → Vals
  vals y mo d w h mi sc = record {
    sec = bin2bcd sc;
    alarm_sec = 0;
    minute = bin2bcd mi;
    alarm_minute = 0;
    hour = bin2bcd h;
    alarm_hour = 0;
    day_of_week = bin2bcd w;
    day_of_month = bin2bcd d;
    month = bin2bcd mo;
    year = bin2bcd y;
  }

  write_rtc_func_lem :
      (y mo d w h mi sc : ℕ) (s : S)
      → y < 100
      → mo < 100
      → d < 100
      → w < 10
      → h < 100
      → mi < 100
      → sc < 100
      → write_rtc_func outb inb 2 (stamp y mo d w h mi sc) s
        ≡ (ok, rtc_set_vals outb inb (vals y mo d w h mi sc) s)
  unfolding write_rtc_func vals
  write_rtc_func_lem y mo d w h mi sc s hy hmo hd hw hh hmi hsc =
      rw
        (
          stoli-two y hy,
          stoli-two mo hmo,
          stoli-two d hd,
          stoli-day w hw,
          stoli-two h hh,
          stoli-two mi hmi,
          stoli-two sc hsc,
        )
        refl

  -- What read_rtc_func leaves selected.
  seen : S → S
  seen s = outb 0x0 0x70 (
      outb 0x2 0x70
        (outb 0x4 0x70 (outb 0x6 0x70 (outb 0x7 0x70 (outb 0x8 0x70 (outb 0x9 0x70 s))))))

  read_rtc_func_lem :
      (y mo d w h mi sc : ℕ) (s : S)
      → y < 100
      → mo < 100
      → d < 100
      → w < 10
      → h < 100
      → mi < 100
      → sc < 100
      → Shows s 0x9 0xff y
      → Shows s 0x8 0xff mo
      → Shows s 0x7 0xff d
      → Shows s 0x6 0xf w
      → Shows s 0x4 0xff h
      → Shows s 0x2 0xff mi
      → Shows s 0x0 0xff sc
      → read_rtc_func outb inb 1 s ≡ some (ok, stamp y mo d w h mi sc ++ 10 ∷ 13 ∷ [], seen s)
  unfolding read_rtc_func seen
  read_rtc_func_lem y mo d w h mi sc s hy hmo hd hw hh hmi hsc r9 r8 r7 r6 r4 r2 r0 =
      rw (e9, e8, e7, e6, e4, e2, e0, print_stamp_lem y mo d w h mi sc hy hmo hd hw hh hmi hsc)
        (rw (e9, e8, e7, e6, e4, e2, e0) refl)
    where
      s1 : S
      s1 = outb 0x9 0x70 s

      same1 : (i : ℕ) → reg s1 i ≡ reg s i
      same1 i = selected 0x9 i s

      s2 : S
      s2 = outb 0x8 0x70 s1

      same2 : (i : ℕ) → reg s2 i ≡ reg s i
      same2 i = selected 0x8 i s1 ∙ same1 i

      s3 : S
      s3 = outb 0x7 0x70 s2

      same3 : (i : ℕ) → reg s3 i ≡ reg s i
      same3 i = selected 0x7 i s2 ∙ same2 i

      s4 : S
      s4 = outb 0x6 0x70 s3

      same4 : (i : ℕ) → reg s4 i ≡ reg s i
      same4 i = selected 0x6 i s3 ∙ same3 i

      s5 : S
      s5 = outb 0x4 0x70 s4

      same5 : (i : ℕ) → reg s5 i ≡ reg s i
      same5 i = selected 0x4 i s4 ∙ same4 i

      s6 : S
      s6 = outb 0x2 0x70 s5

      same6 : (i : ℕ) → reg s6 i ≡ reg s i
      same6 i = selected 0x2 i s5 ∙ same5 i

      e9 : read_bin outb inb 0x9 0xff s ≡ (y, outb 0x9 0x70 s)
      e9 = read_bin_lem 0x9 0xff y s s refl r9

      e8 : read_bin outb inb 0x8 0xff s1 ≡ (mo, outb 0x8 0x70 s1)
      e8 = read_bin_lem 0x8 0xff mo s1 s (same1 0x8) r8

      e7 : read_bin outb inb 0x7 0xff s2 ≡ (d, outb 0x7 0x70 s2)
      e7 = read_bin_lem 0x7 0xff d s2 s (same2 0x7) r7

      e6 : read_bin outb inb 0x6 0xf s3 ≡ (w, outb 0x6 0x70 s3)
      e6 = read_bin_lem 0x6 0xf w s3 s (same3 0x6) r6

      e4 : read_bin outb inb 0x4 0xff s4 ≡ (h, outb 0x4 0x70 s4)
      e4 = read_bin_lem 0x4 0xff h s4 s (same4 0x4) r4

      e2 : read_bin outb inb 0x2 0xff s5 ≡ (mi, outb 0x2 0x70 s5)
      e2 = read_bin_lem 0x2 0xff mi s5 s (same5 0x2) r2

      e0 : read_bin outb inb 0x0 0xff s6 ≡ (sc, outb 0x0 0x70 s6)
      e0 = read_bin_lem 0x0 0xff sc s6 s (same6 0x0) r0

  -- When 13 digits are set by write_rtc_func and the clock stands still until then, read_rtc_func
  -- prints these digits and a new line.
  pub read_rtc_func-write_rtc_func :
      (y mo d w h mi sc : ℕ) (s : S)
      → y < 100
      → mo < 100
      → d < 100
      → w < 10
      → h < 100
      → mi < 100
      → sc < 100
      → (set shown : S) × (write_rtc_func outb inb 2 (stamp y mo d w h mi sc) s ≡ (ok, set))
        × (read_rtc_func outb inb 1 set ≡ some (ok, stamp y mo d w h mi sc ++ 10 ∷ 13 ∷ [], shown))
  unfolding vals writes Shows
  read_rtc_func-write_rtc_func y mo d w h mi sc s hy hmo hd hw hh hmi hsc = (
    t,
    seen t,
    write_rtc_func_lem y mo d w h mi sc s hy hmo hd hw hh hmi hsc,
    read_rtc_func_lem y mo d w h mi sc t hy hmo hd hw hh hmi hsc (two_shown 0x9 y hy refl refl)
        (two_shown 0x8 mo hmo refl refl) (two_shown 0x7 d hd refl refl) day
        (two_shown 0x4 h hh refl refl) (two_shown 0x2 mi hmi refl refl)
        (two_shown 0x0 sc hsc refl refl),
  )
    where
      v : Vals
      v = vals y mo d w h mi sc

      t : S
      t = rtc_set_vals outb inb v s

      two_shown :
          (i n : ℕ)
          → n < 100
          → (i == 0xb) ≡ false
          → held (writes v) i (reg s i) ≡ bin2bcd n % 256 % 256
          → Shows t i 0xff n
      two_shown i n lt other is = rw (reg-set_vals v s i other, is) (bcd_two n lt)

      day : Shows t 0x6 0xf w
      day = rw (reg-set_vals v s 0x6 refl) (bcd_day w hw)
