-- ===== src/Crfs/Cache/Checksum.antt =====
-- The check sum of a super block: what it covers, and that `cache_flush` writes a super block that
-- passes the test of `crfs_init`.
use cobalt_rom.Prelude.{
  ℕ, zero, suc, ◌+◌, ◌-◌, ◌*◌, ◌%◌, ◌^◌, ◌≤◌, ◌<◌, ◌≡◌, refl, sym, ◌∙◌, ◌==◌, Bool-cases, inl, inr,
  leb, if◌then◌else◌, arith,
}
use cobalt_rom.Crfs.Layout.{Block, get16, get32, put32, sb_checksum, sb_blockver}
use cobalt_rom.Crfs.Layout.Fields.{get32-put32_self, get32-put32_ne, get16-put32_ne}
use cobalt_rom.Crfs.Cache.{sum_words, words_per_block, checksum, next_super}

-- The sum of the words `i` to `i + n`, but word 2, with no wrap.
pub total : ℕ → ℕ → Block → ℕ
total zero i b = 0
total (suc n) i b = (if i == 2 then 0 else get32 b (4 * i)) + total n (i + 1) b

sum_words-eq-total :
    (n i : ℕ) (b : Block) (sum : ℕ)
    → sum < 2 ^ 32
    → sum_words n i b sum ≡ (sum + total n i b) % 2 ^ 32
unfolding sum_words total
sum_words-eq-total zero i b sum h = omega arith
sum_words-eq-total (suc n) i b sum h = elim (Bool-cases (i == 2)) [
  | inl e ↦ rw e (omega (arith, sum_words-eq-total n (i + 1) b sum h))
  | inr e ↦ rw e (
      omega
        (arith, sum_words-eq-total n (i + 1) b ((sum + get32 b (4 * i)) % 2 ^ 32) (omega arith)))
]

pub checksum-lt : (b : Block) → checksum b < 2 ^ 32
unfolding checksum
checksum-lt b = omega arith

-- The words of a block other than word 2 and its check sum add up to 0 on 32 bits.
pub checksum-total : (b : Block) → (total words_per_block 0 b + checksum b) % 2 ^ 32 ≡ 0
unfolding checksum
checksum-total b =
    go (total words_per_block 0 b) (sum_words words_per_block 0 b 0)
      (sum_words-eq-total words_per_block 0 b 0 (omega arith))
  where
    go :
        (t s : ℕ)
        → s ≡ (0 + t) % 2 ^ 32
        → (t + (2 ^ 32 - 1 - (s + 2 ^ 32 - 1) % 2 ^ 32)) % 2 ^ 32 ≡ 0
    go t s e = omega arith

sum_words-put32 :
    (n i : ℕ) (b : Block) (v sum : ℕ)
    → sum_words n i (put32 b sb_checksum v) sum ≡ sum_words n i b sum
unfolding sum_words
sum_words-put32 zero i b v sum = refl
sum_words-put32 (suc n) i b v sum = elim (Bool-cases (i == 2)) [
  | inl e ↦ rw e (sum_words-put32 n (i + 1) b v sum)
  | inr e ↦ rw e (
      rw
        (get32-put32_ne b 8 (4 * i) v
          (elim (Bool-cases (leb 3 i)) [ inl p ↦ inl (ground arith) | inr p ↦ inr (ground arith) ]))
        (sum_words-put32 n (i + 1) b v _))
]

-- The check sum does not depend on the field that holds it.
pub checksum-put32 : (b : Block) (v : ℕ) → checksum (put32 b sb_checksum v) ≡ checksum b
unfolding checksum
checksum-put32 b v = rw (sum_words-put32 words_per_block 0 b v 0)

-- The super block that `cache_flush` writes carries its own check sum, has the next version number,
-- and agrees with the old one in every half word from offset 16 on.
pub next_super_lem :
    (sb : Block)
    → (get32 (next_super sb) sb_checksum ≡ checksum (next_super sb))
      × (get32 (next_super sb) sb_blockver ≡ (get32 sb sb_blockver + 1) % 2 ^ 32)
      × ((o : ℕ) → 16 ≤ o → get16 (next_super sb) o ≡ get16 sb o)
unfolding next_super
next_super_lem sb = (
  get32-put32_self bumped 8 (checksum bumped) (checksum-lt bumped)
      ∙ sym (checksum-put32 bumped (checksum bumped)),
  get32-put32_ne bumped 8 12 (checksum bumped) (inl (omega arith))
      ∙ get32-put32_self sb 12 ((get32 sb 12 + 1) % 2 ^ 32) (omega arith),
  λ o h.
      get16-put32_ne bumped 8 o (checksum bumped) (inl (omega arith))
      ∙ get16-put32_ne sb 12 o ((get32 sb 12 + 1) % 2 ^ 32) (inl (omega arith)),
)
  where
    bumped : Block
    bumped = put32 sb 12 ((get32 sb 12 + 1) % 2 ^ 32)
