-- ===== src/Crfs/Layout/Fields.antt =====
-- Reading back the fields of a block.
use cobalt_rom.Prelude.{ℕ, ◌+◌, ◌*◌, ◌≤◌, ◌<◌, ◌≡◌, ◌∙◌, ◌⊎◌, inl, inr, arith}
use cobalt_rom.Crfs.Layout.{Block, get16, get32, put16, put32, Inode, get_inode, put_inode}

pub get16-put16_self : (b : Block) (o v : ℕ) → v < 65536 → get16 (put16 b o v) o ≡ v
unfolding get16 put16
get16-put16_self b o v h = ground arith

pub get32-put32_self : (b : Block) (o v : ℕ) → v < 4294967296 → get32 (put32 b o v) o ≡ v
unfolding get32 put32
get32-put32_self b o v h = ground arith

pub get16-put16_ne :
    (b : Block) (o p v : ℕ) → (o + 2 ≤ p) ⊎ (p + 2 ≤ o) → get16 (put16 b o v) p ≡ get16 b p
unfolding get16 put16
get16-put16_ne b o p v h = ground arith

pub get16-put32_ne :
    (b : Block) (o p v : ℕ) → (o + 4 ≤ p) ⊎ (p + 2 ≤ o) → get16 (put32 b o v) p ≡ get16 b p
unfolding get16 put32
get16-put32_ne b o p v h = ground arith

pub get32-put16_ne :
    (b : Block) (o p v : ℕ) → (o + 2 ≤ p) ⊎ (p + 4 ≤ o) → get32 (put16 b o v) p ≡ get32 b p
unfolding get32 put16
get32-put16_ne b o p v h = ground arith

pub get32-put32_ne :
    (b : Block) (o p v : ℕ) → (o + 4 ≤ p) ⊎ (p + 4 ≤ o) → get32 (put32 b o v) p ≡ get32 b p
unfolding get32 put32
get32-put32_ne b o p v h = ground arith

-- The widths of an inode's fields.
pub record Fits (n : Inode) : Type 0 where
  pub inode_fits : n.in_inode < 65536
  pub first_fits : n.in_first < 65536
  pub last_fits : n.in_last < 65536
  pub fsize_fits : n.in_fsize < 4294967296
  pub fmask_fits : n.in_fmask < 4294967296

-- Bytes outside entry `i` stay.
put_inode_outside :
    (b : Block) (i : ℕ) (n : Inode) (k : ℕ)
    → (k < i * 16) ⊎ (i * 16 + 16 ≤ k)
    → put_inode b i n k ≡ b k
unfolding put_inode put16 put32
put_inode_outside b i n k (inl h) = ground arith
put_inode_outside b i n k (inr h) = ground arith

Inode-eq :
    {m n : Inode}
    → m.in_inode ≡ n.in_inode
    → m.in_first ≡ n.in_first
    → m.in_last ≡ n.in_last
    → m.in_fsize ≡ n.in_fsize
    → m.in_fmask ≡ n.in_fmask
    → m ≡ n
Inode-eq p q r s t =
    λ i. record { in_inode = p i; in_first = q i; in_last = r i; in_fsize = s i; in_fmask = t i }

-- Storing an inode in an inode table leaves the other entries.
pub get_inode-put_inode_ne :
    (b : Block) (i j : ℕ) (n : Inode)
    → (i < j) ⊎ (j < i)
    → get_inode (put_inode b i n) j ≡ get_inode b j
get_inode-put_inode_ne b i j n h =
    unfold get_inode in
    Inode-eq (half (j * 16) (omega arith) (omega arith))
      (half (j * 16 + 2) (omega arith) (omega arith))
      (half (j * 16 + 4) (omega arith) (omega arith))
      (word (j * 16 + 8) (omega arith) (omega arith))
      (word (j * 16 + 12) (omega arith) (omega arith))
  where
    byte : (p : ℕ) → j * 16 ≤ p → p < j * 16 + 16 → put_inode b i n p ≡ b p
    byte p lo hi =
        put_inode_outside b i n p (elim h [ inl l ↦ inr (omega arith) | inr l ↦ inl (omega arith) ])

    half : (p : ℕ) → j * 16 ≤ p → p + 2 ≤ j * 16 + 16 → get16 (put_inode b i n) p ≡ get16 b p
    half p lo hi =
        unfold get16 in
        omega (arith, byte p lo (omega arith), byte (p + 1) (omega arith) (omega arith))

    word : (p : ℕ) → j * 16 ≤ p → p + 4 ≤ j * 16 + 16 → get32 (put_inode b i n) p ≡ get32 b p
    word p lo hi =
        unfold get32 in
        omega (
          arith,
          byte p lo (omega arith),
          byte (p + 1) (omega arith) (omega arith),
          byte (p + 2) (omega arith) (omega arith),
          byte (p + 3) (omega arith) (omega arith),
        )

-- An inode whose fields fit their widths reads back once it is stored in an inode table.
pub get_inode-put_inode_self :
    (b : Block) (i : ℕ) (n : Inode) → Fits n → get_inode (put_inode b i n) i ≡ n
unfolding get_inode put_inode
get_inode-put_inode_self b i n f =
    Inode-eq
      (get16-put32_ne _ (i * 16 + 12) (i * 16) n.in_fmask (inr (omega arith))
        ∙ get16-put32_ne _ (i * 16 + 8) (i * 16) n.in_fsize (inr (omega arith))
        ∙ get16-put16_ne _ (i * 16 + 4) (i * 16) n.in_last (inr (omega arith))
        ∙ get16-put16_ne _ (i * 16 + 2) (i * 16) n.in_first (inr (omega arith))
        ∙ get16-put16_self _ (i * 16) n.in_inode f.inode_fits)
      (get16-put32_ne _ (i * 16 + 12) (i * 16 + 2) n.in_fmask (inr (omega arith))
        ∙ get16-put32_ne _ (i * 16 + 8) (i * 16 + 2) n.in_fsize (inr (omega arith))
        ∙ get16-put16_ne _ (i * 16 + 4) (i * 16 + 2) n.in_last (inr (omega arith))
        ∙ get16-put16_self _ (i * 16 + 2) n.in_first f.first_fits)
      (get16-put32_ne _ (i * 16 + 12) (i * 16 + 4) n.in_fmask (inr (omega arith))
        ∙ get16-put32_ne _ (i * 16 + 8) (i * 16 + 4) n.in_fsize (inr (omega arith))
        ∙ get16-put16_self _ (i * 16 + 4) n.in_last f.last_fits)
      (get32-put32_ne _ (i * 16 + 12) (i * 16 + 8) n.in_fmask (inr (omega arith))
        ∙ get32-put32_self _ (i * 16 + 8) n.in_fsize f.fsize_fits)
      (get32-put32_self _ (i * 16 + 12) n.in_fmask f.fmask_fits)
