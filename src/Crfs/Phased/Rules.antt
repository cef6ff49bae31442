-- ===== src/Crfs/Phased/Rules.antt =====
-- Rules for `Keeps`: the ways to build a call, and the operations on the cache and the freemap.
use cobalt_rom.Prelude.{
  ℕ, ◌%◌, ◌^◌, ◌≡◌, refl, ◌∙◌, ap, Bool, true, false, Option, none, some, ◌==◌, ==_iff, Bool-cases,
  Option-cases, inl, inr, get_or_beyond, if◌then◌else◌, arith,
}
use cobalt_rom.Crfs.Layout.{Block}
use cobalt_rom.Crfs.State.{Fs, Result, ok, err, Errno, enospc}
use cobalt_rom.Crfs.Freemap
use cobalt_rom.Crfs.Freemap.{Freemap}
use cobalt_rom.Crfs.Freemap.Bit.{IsValid, busy}
use cobalt_rom.Crfs.Freemap.Valid.{unmark-IsValid_any, busy-unmark_any}
use cobalt_rom.Crfs.Freemap.Next.{next-Took, Took, next-IsValid, mapsize-next, busy-next}
use cobalt_rom.Crfs.Cache.{read_block, write_block, block_is_dirty}
use cobalt_rom.Crfs.Cache.View.{
  block_is_dirty-read_block, block_is_dirty-write_block, block_freemap-read_block,
  block_freemap-write_block, disk-read_block, disk-write_block, which_super-read_block,
  which_super-write_block,
}
use cobalt_rom.Crfs.Cache.Coherent.{IsCoherent, read_block-IsCoherent, write_block-IsCoherent}
use cobalt_rom.Crfs.Monad.{M, pure, throw, gets, run, modify, and_then, on_option, ◌>>=◌}
use cobalt_rom.Crfs.Inode.{next_block, next_inode, alloc_block, unmark_block, set_itable_blocknum}
use cobalt_rom.Crfs.Create.{as_uint16}
use cobalt_rom.Crfs.Phased.{IsPhased, Keeps, Post, Writable}

module _ (committed : ℕ → Bool) (start : Fs) where
  pub Keeps-pure : {A : Type 0} {Q : A → Type 0} (a : A) → Q a → Keeps committed start Q (pure a)
  Keeps-pure a q = record { at = λ s p. (p, q) }

  pub Keeps-throw :
      {A : Type 0} {Q : A → Type 0} (e : Errno) → Keeps committed start Q (throw {A = A} e)
  Keeps-throw e = record { at = λ s p. (p, tt) }

  Keeps-and_then :
      {A B : Type 0} {P : A → Type 0} {Q : B → Type 0} (r : Result A) (s : Fs) (f : A → M Fs B)
      → IsPhased committed start s × Post P r
      → ((a : A) → P a → Keeps committed start Q (f a))
      → IsPhased committed start (and_then (r, s) f).1 × Post Q (and_then (r, s) f).0
  Keeps-and_then (ok a) s f h k = (k a h.1).at s h.0
  Keeps-and_then (err e) s f h k = (h.0, tt)

  pub Keeps-bind :
      {A B : Type 0} (P : A → Type 0) {Q : B → Type 0} (m : M Fs A) (f : A → M Fs B)
      → Keeps committed start P m
      → ((a : A) → P a → Keeps committed start Q (f a))
      → Keeps committed start Q (m >>= f)
  Keeps-bind P m f km kf = record { at = λ s p. Keeps-and_then (m s).0 (m s).1 f (km.at s p) kf }

  pub Keeps-if :
      {A : Type 0} {Q : A → Type 0} (b : Bool) (m n : M Fs A)
      → (b ≡ true → Keeps committed start Q m)
      → (b ≡ false → Keeps committed start Q n)
      → Keeps committed start Q (if b then m else n)
  Keeps-if true m n km kn = km refl
  Keeps-if false m n km kn = kn refl

  pub Keeps-on_option :
      {A B : Type 0} {Q : B → Type 0} (P : Option A → Type 0) (o : Option A) (m : M Fs B)
      (f : A → M Fs B)
      → P o
      → (P none → Keeps committed start Q m)
      → ((a : A) → P (some a) → Keeps committed start Q (f a))
      → Keeps committed start Q (on_option o m f)
  Keeps-on_option P none m f p km kf = km p
  Keeps-on_option P (some a) m f p km kf = kf a p

  -- The same, where nothing is known of the option.
  pub Keeps-option :
      {A B : Type 0} {Q : B → Type 0} (o : Option A) (m : M Fs B) (f : A → M Fs B)
      → Keeps committed start Q m
      → ((a : A) → Keeps committed start Q (f a))
      → Keeps committed start Q (on_option o m f)
  Keeps-option o m f km kf = Keeps-on_option (λ o'. Unit {0}) o m f tt (λ u. km) (λ a u. kf a)

  -- A bind that needs nothing of the first result.
  pub Keeps-then :
      {A B : Type 0} {Q : B → Type 0} (m : M Fs A) (f : A → M Fs B)
      → Keeps committed start (λ a. Unit {0}) m
      → ((a : A) → Keeps committed start Q (f a))
      → Keeps committed start Q (m >>= f)
  Keeps-then m f km kf = Keeps-bind (λ a. Unit {0}) m f km (λ a _. kf a)

  pub Keeps-gets : {A : Type 0} (f : Fs → A) → Keeps committed start (λ a. Unit {0}) (gets f)
  Keeps-gets f = record { at = λ s p. (p, tt) }

  -- A block with a dirty copy may be written.
  pub Keeps-block_is_dirty :
      (j : ℕ)
      → Keeps committed start (λ b. b ≡ true → Writable committed j) (gets (block_is_dirty j))
  Keeps-block_is_dirty j = record {
    at = λ s p. (
      p,
      λ d. elim (Bool-cases (committed j)) [
        | inl c ↦ absurd (ground (arith, d, p.untouched j c))
        | inr c ↦ c
      ],
    );
  }

  -- A step that leaves the freemap of the blocks.
  same_freemap :
      (s s' : Fs)
      → s'.block_freemap ≡ s.block_freemap
      → s'.disk ≡ s.disk
      → s'.which_super ≡ s.which_super
      → IsCoherent s'
      → ((j : ℕ) → committed j ≡ true → block_is_dirty j s' ≡ false)
      → IsPhased committed start s
      → IsPhased committed start s'
  same_freemap s s' e f g c d p = record {
    valid = rw e p.valid;
    room = rw e p.room;
    coherent = c;
    stored = f ∙ p.stored;
    chosen = g ∙ p.chosen;
    taken = λ j h. rw e (p.taken j h);
    untouched = d;
  }

  -- A step on the freemap of the blocks alone.
  new_freemap :
      (s : Fs) (m : Freemap)
      → IsValid m
      → m.mapsize ≡ s.block_freemap.mapsize
      → ((j : ℕ) → busy s.block_freemap j ≡ 1 → busy m j ≡ 1)
      → IsPhased committed start s
      → IsPhased committed start (record s { block_freemap = m })
  new_freemap s m v e b p = record {
    valid = v;
    room = rw e p.room;
    coherent = record { unique = p.coherent.unique; clean = p.coherent.clean };
    stored = p.stored;
    chosen = p.chosen;
    taken = λ j h. b j (p.taken j h);
    untouched = λ j h. unfold block_is_dirty in p.untouched j h;
  }

  pub Keeps-read_block : (j : ℕ) → Keeps committed start (λ b. Unit {0}) (run (read_block j))
  Keeps-read_block j = record {
    at = λ s p. (
      same_freemap s (read_block j s).1 (block_freemap-read_block j s) (disk-read_block j s)
          (which_super-read_block j s) (read_block-IsCoherent j s p.coherent)
          (λ i c. block_is_dirty-read_block j i s ∙ p.untouched i c) p,
      tt,
    );
  }

  pub Keeps-write_block :
      (j : ℕ) (b : Block)
      → Writable committed j
      → Keeps committed start (λ u. Unit {0}) (modify (write_block j b))
  Keeps-write_block j b w = record {
    at = λ s p. (
      same_freemap s (write_block j b s) (block_freemap-write_block j b s) (disk-write_block j b s)
          (which_super-write_block j b s) (write_block-IsCoherent j b s p.coherent)
          (λ i c. block_is_dirty-write_block j i b s ∙ rw (other i c) (p.untouched i c)) p,
      tt,
    );
  }
    where
      other : (i : ℕ) → committed i ≡ true → j == i ≡ false
      other i c = elim (Bool-cases (j == i)) [
        | inl e ↦ absurd (ground (arith, c, w, ap committed ((==_iff j i).0 e)))
        | inr e ↦ e
      ]

  not_busy-Writable :
      (s : Fs) (j : ℕ)
      → IsPhased committed start s
      → busy s.block_freemap j ≡ 0
      → Writable committed j
  not_busy-Writable s j p h = elim (Bool-cases (committed j)) [
    | inl c ↦ absurd (omega (arith, p.taken j c, h))
    | inr c ↦ c
  ]

  -- A number from the freemap may be written, and so may 65535, which stands for no number: it is
  -- past the end of the freemap.
  pub Keeps-next_block :
      Keeps committed start (λ o. Writable committed (as_uint16 o)) (run next_block)
  Keeps-next_block = record {
    at = λ s p. (
      unfold next_block in
          new_freemap s (Freemap.next s.block_freemap).1 (next-IsValid s.block_freemap p.valid)
            (mapsize-next s.block_freemap p.valid) (λ j h. busy-next s.block_freemap j p.valid h) p,
      elim (Option-cases (next_block s).0) [
        | inl e ↦ rw e (unfold as_uint16 in not_busy-Writable s 65535 p (past_end s p))
        | inr (b, e) ↦ rw e (unfold as_uint16 in taken s b p e)
      ],
    );
  }
    where
      past_end : (s : Fs) → IsPhased committed start s → busy s.block_freemap 65535 ≡ 0
      past_end s p =
          rw
            (
              get_or_beyond s.block_freemap.map 8191 0 (omega (arith, p.valid.map_size, p.room)),
              get_or_beyond s.block_freemap.freed 8191 0
                  (omega (arith, p.valid.freed_size, p.room)),
            )
            refl

      taken :
          (s : Fs) (b : ℕ)
          → IsPhased committed start s
          → (next_block s).0 ≡ some b
          → Writable committed (b % 2 ^ 16)
      taken s b p e =
          let e' : (Freemap.next s.block_freemap).0 ≡ some b = unfold next_block in e in
          let t : Took s.block_freemap b (Freemap.next s.block_freemap).1 =
            next-Took s.block_freemap b (Freemap.next s.block_freemap).1 p.valid
              (ap (λ o. (o, (Freemap.next s.block_freemap).1)) e') in
          let small : b % 2 ^ 16 ≡ b = omega (arith, t.room, p.room) in
          rw small (not_busy-Writable s b p t.free)

  -- A block from the freemap may be written.
  pub Keeps-alloc_block : Keeps committed start (Writable committed) alloc_block
  unfolding alloc_block
  Keeps-alloc_block =
      Keeps-bind (λ o. Writable committed (as_uint16 o)) (run next_block) _ Keeps-next_block
        (λ o w.
          Keeps-on_option (λ o'. Writable committed (as_uint16 o')) o _ _ w
            (λ w'. Keeps-throw enospc) (λ b w'. Keeps-pure (b % 2 ^ 16) (unfold as_uint16 in w')))

  pub Keeps-unmark_block : (j : ℕ) → Keeps committed start (λ u. Unit {0}) (modify (unmark_block j))
  Keeps-unmark_block j = record {
    at = λ s p. (
      unfold unmark_block in
          new_freemap s (Freemap.unmark s.block_freemap j)
            (unmark-IsValid_any s.block_freemap j p.valid) (unfold Freemap.unmark in refl)
            (λ i h. busy-unmark_any s.block_freemap j i p.valid ∙ h) p,
      tt,
    );
  }

  pub Keeps-set_itable_blocknum :
      (inum b : ℕ) → Keeps committed start (λ u. Unit {0}) (modify (set_itable_blocknum inum b))
  Keeps-set_itable_blocknum inum b = record {
    at = λ s p. (
      unfold set_itable_blocknum in
          same_freemap s _ refl refl refl
            (record { unique = p.coherent.unique; clean = p.coherent.clean })
            (λ i c. unfold block_is_dirty in p.untouched i c) p,
      tt,
    );
  }

  pub Keeps-next_inode : Keeps committed start (λ o. Unit {0}) (run next_inode)
  Keeps-next_inode = record {
    at = λ s p. (
      unfold next_inode in
          same_freemap s (next_inode s).1 refl refl refl
            (record { unique = p.coherent.unique; clean = p.coherent.clean })
            (λ i c. unfold block_is_dirty in p.untouched i c) p,
      tt,
    );
  }
