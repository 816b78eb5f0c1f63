-- ===== src/Loader/Segments/Stores.antt =====
-- Filling and copying where all pages may be written.
use steelmind_os.Base.{
  ℕ, zero, suc, ◌+◌, ◌≤◌, ◌<◌, ◌≡◌, ◌⊎◌, refl, ◌∙◌, ap, arith, true, some, List, [], ◌∷◌, length,
  get_elem?, put, Returns,
}
use steelmind_os.Loader.Segments.{Mapper, Space, page_of, may_write, store, fill, copy}

-- `q` is outside of the `n` bytes from `a` on.
abbrev pub Outside : (a n q : ℕ) → Type 0
Outside a n q = (q < a) ⊎ (a + n ≤ q)

module _ {T : Type 0} (M : Mapper T) (held : (frame offset : ℕ) → ℕ) where
  open M use {flags_of}

  -- All `n` bytes from `a` on may be written.
  abbrev pub Writable : Space T → (a n : ℕ) → Type 0
  Writable s a n =
      (q : ℕ) → a ≤ q → q < a + n → may_write (flags_of s.memory.table (page_of q)) ≡ true

  pub record Filled (a n : ℕ) (s s' : Space T) : Type 0 where
    pub memory : s'.memory ≡ s.memory
    pub inside : (q : ℕ) → a ≤ q → q < a + n → s'.bytes q ≡ 0
    pub outside : (q : ℕ) → Outside a n q → s'.bytes q ≡ s.bytes q

  pub fill-Filled :
      (n a : ℕ) (s : Space T) → Writable s a n → Returns (Filled a n s) (fill M held n a s)
  unfolding fill store
  fill-Filled zero a s w = (
    s,
    refl,
    record { memory = refl; inside = λ q h k. absurd (omega (arith, h, k)); outside = λ q h. refl },
  )
  fill-Filled (suc n) a s w =
      let s1 : Space T = record s { bytes = put s.bytes a 0 } in
      let (s', run, f) =
        fill-Filled n (a + 1) s1 (λ q h k. w q (omega (arith, h)) (omega (arith, k))) in
      rw (w a (omega arith) (omega arith)) (
        s',
        run,
        record {
          memory = f.memory;
          inside = λ q h k. ground (arith, f.inside q, f.outside q);
          outside = λ q h. ground (arith, f.outside q);
        },
      )

  pub record Copied (a : ℕ) (content : List ℕ) (s s' : Space T) : Type 0 where
    pub memory : s'.memory ≡ s.memory
    pub inside : (i b : ℕ) → get_elem? content i ≡ some b → s'.bytes (a + i) ≡ b
    pub outside : (q : ℕ) → Outside a (length content) q → s'.bytes q ≡ s.bytes q

  Copied-cons :
      (b : ℕ) (bs : List ℕ) (a : ℕ) (s s' : Space T)
      → Copied (a + 1) bs (record s { bytes = put s.bytes a b }) s'
      → (i c : ℕ) → get_elem? (b ∷ bs) i ≡ some c
      → s'.bytes (a + i) ≡ c
  Copied-cons b bs a s s' f zero c h = ground (arith, f.outside a)
  Copied-cons b bs a s s' f (suc i) c h = ap s'.bytes (omega arith) ∙ f.inside i c h

  pub copy-Copied :
      (content : List ℕ) (a : ℕ) (s : Space T)
      → Writable s a (length content)
      → Returns (Copied a content s) (copy M held a content s)
  unfolding copy store
  copy-Copied [] a s w =
      (s, refl, record { memory = refl; inside = λ i b h. ground arith; outside = λ q h. refl })
  copy-Copied (b ∷ bs) a s w =
      let s1 : Space T = record s { bytes = put s.bytes a b } in
      let (s', run, f) =
        copy-Copied bs (a + 1) s1 (λ q h k. w q (omega (arith, h)) (omega (arith, k))) in
      rw (w a (omega arith) (omega arith)) (
        s',
        run,
        record {
          memory = f.memory;
          inside = Copied-cons b bs a s s' f;
          outside = λ q h. ground (arith, f.outside q);
        },
      )
