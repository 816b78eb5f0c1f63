-- ===== src/Memory/FrameBuffer.antt =====
-- kernel/src/memory.rs: the frame buffer's pages are set to write combining.
use steelmind_os.Base.{
  ℕ, zero, suc, ◌+◌, ◌-◌, ◌*◌, ◌/◌, ◌%◌, ◌^◌, ◌≤◌, ◌<◌, ◌≡◌, ◌≢◌, ◌⊎◌, inl, refl, sym, ◌∙◌, arith,
  ltb, lt→ltb, leb, le→leb, if◌then◌else◌, Bool, true, Option, some, Checked, ok, panic, ◌>>=◌,
  ◌>>◌, ass, unwrap, sub64, add64, add64-ok, sub64-ok, Returns,
}
use mathlib.Core.Path.{ap}
use native.Mathlib.Decide.{ℕ_discrete}

-- The flags of a page, those of the cache included.
pub record CacheFlags : Type 0 where
  pub present : Bool
  pub writable : Bool
  pub no_execute : Bool
  pub write_through : Bool
  pub no_cache : Bool

-- The crate `x86_64` on page tables `T`: the flags of a page that is mapped can be changed, and no others change. An
-- address must be canonical, as those of the lower half are.
pub record Updater (T : Type 0) : Type 0 where
  pub is_canonical : ℕ → Bool
  pub low_canonical : (a : ℕ) → a < 2 ^ 47 → is_canonical a ≡ true
  pub flags_of : T → (page : ℕ) → Option CacheFlags
  pub update_flags : (page : ℕ) → CacheFlags → T → Option T
  pub update_sets :
      (page : ℕ) (flags f : CacheFlags) (t : T)
      → flags_of t page ≡ some f
      → (t' : T) × (update_flags page flags t ≡ some t')
        × (flags_of t' page ≡ some flags)
        × ((q : ℕ) → page ≢ q → flags_of t' q ≡ flags_of t q)

-- With the PAT as `change_pat_so_write_through_plus_cache_disabled_is_write_combining` sets it, the last two mean
-- write combining.
abbrev pub combining : CacheFlags
combining = record {
  present = true;
  writable = true;
  no_execute = true;
  write_through = true;
  no_cache = true;
}

-- `Page::containing_address`
abbrev pub page_of : ℕ → ℕ
page_of a = a / 4096 * 4096

module _ {T : Type 0} (U : Updater T) where
  open U use {is_canonical, flags_of, update_flags}

  -- `VirtAddr::new`, also in a sum and a difference.
  abbrev virt_addr : ℕ → Checked ℕ
  virt_addr a = if is_canonical a then ok a else panic

  -- The loop over `page_range`, from `page` on.
  unfoldable pub update_pages : (rounds page : ℕ) → T → Checked T
  update_pages zero page t = ok t
  update_pages (suc rounds) page t = do
    t' ← unwrap (update_flags page combining t)
    update_pages rounds (page + 4096) t'

  -- `frame_buffer[0]` panics on an empty one.
  unfoldable pub set_frame_buffer_cache_to_write_combining : (start len : ℕ) → T → Checked T
  unfolding update_pages
  set_frame_buffer_cache_to_write_combining start len t = do
    ass (ltb 0 len)
    region_start ← virt_addr start
    end ← add64 region_start len
    after ← virt_addr end
    before ← sub64 after 1
    region_end ← virt_addr before
    let first = page_of region_start
    let last = page_of region_end
    update_pages (if leb first last then (last - first) / 4096 + 1 else 0) first t

  -- After the loop over `n` pages from `page` on.
  pub record Updated (page n : ℕ) (t t' : T) : Type 0 where
    pub inside :
        (q : ℕ)
        → page ≤ q
        → q < page + n * 4096
        → q % 4096 ≡ page % 4096
        → flags_of t' q ≡ some combining
    pub outside : (q : ℕ) → (q < page) ⊎ (page + n * 4096 ≤ q) → flags_of t' q ≡ flags_of t q

  update_pages-Updated :
      (n page : ℕ) (t : T)
      → ((i : ℕ) → i < n → (f : CacheFlags) × (flags_of t (page + i * 4096) ≡ some f))
      → Returns (Updated page n t) (update_pages n page t)
  unfolding update_pages
  update_pages-Updated zero page t mapped = (
    t,
    refl,
    record { inside = λ q lo hi m. absurd (omega (arith, lo, hi)); outside = λ q o. refl },
  )
  update_pages-Updated (suc n) page t mapped =
      let (f, here) = mapped 0 (omega arith) in
      let here' : flags_of t page ≡ some f = ap (flags_of t) (omega arith) ∙ here in
      let (t1, run, sets, keeps) = U.update_sets page combining f t here' in
      let rest : (i : ℕ)
          → i < n
          → (g : CacheFlags) × (flags_of t1 (page + 4096 + i * 4096) ≡ some g) =
        λ i l.
          let (g, there) = mapped (i + 1) (omega (arith, l)) in
          (
            g,
            keeps (page + 4096 + i * 4096) (λ e. omega (arith, e))
                ∙ ap (flags_of t) (omega arith)
                ∙ there,
          ) in
      let (t2, run', u) = update_pages-Updated n (page + 4096) t1 rest in
      rw (run, run')
        (
          t2,
          refl,
          record {
            inside = λ q lo hi m. elim (ℕ_discrete page q) [
              | yes e ↦ u.outside q (inl (omega (arith, e))) ∙ ap (flags_of t1) (sym e) ∙ sets
              | no ne ↦ u.inside q (omega (arith, lo, ne, m)) (omega (arith, hi)) (omega (arith, m))
            ];
            outside = λ q o. u.outside q (ground (arith, o)) ∙ keeps q (λ e. ground (arith, e, o));
          },
        )

  -- A frame buffer that is not empty, lies below 2^47 with the address at its end, and has all its pages mapped is set to write combining without
  -- a panic: then every byte of it lies on such a page, and the flags of pages that hold none of its bytes are
  -- as they were.
  pub set_frame_buffer-covers :
      (start len : ℕ) (t : T)
      → 0 < len
      → start + len < 2 ^ 47
      → ((a : ℕ)
          → start ≤ a
          → a < start + len
          → (f : CacheFlags) × (flags_of t (page_of a) ≡ some f))
      → Returns
          (λ t'.
            ((a : ℕ) → start ≤ a → a < start + len → flags_of t' (page_of a) ≡ some combining)
            × ((q : ℕ)
                → q % 4096 ≡ 0
                → (q < page_of start) ⊎ (start + len ≤ q)
                → flags_of t' q ≡ flags_of t q))
          (set_frame_buffer_cache_to_write_combining start len t)
  unfolding set_frame_buffer_cache_to_write_combining
  set_frame_buffer-covers start len t pos small mapped =
      let first = page_of start in
      let last = page_of (start + len - 1) in
      let n = (last - first) / 4096 + 1 in
      let pages : (i : ℕ) → i < n → (f : CacheFlags) × (flags_of t (first + i * 4096) ≡ some f) =
        λ i l. elim (ℕ_discrete i 0) [
          | yes e ↦
              let (f, h) = mapped start (omega arith) (omega arith) in
              (f, ap (flags_of t) (omega (arith, e)) ∙ h)
          | no ne ↦
              let (f, h) = mapped (first + i * 4096) (omega (arith, ne)) (omega (arith, ne, l)) in
              (f, ap (flags_of t) (omega arith) ∙ h)
        ] in
      let (t', run, u) = update_pages-Updated n first t pages in
      rw
        (
          lt→ltb 0 len pos,
          U.low_canonical start (omega arith),
          add64-ok start len (omega arith),
          U.low_canonical (start + len) small,
          sub64-ok (start + len) 1 (omega arith),
          U.low_canonical (start + len - 1) (omega arith),
          le→leb first last (omega arith),
        )
        (
          t',
          run,
          (
            (λ a lo hi. u.inside (page_of a) (omega (arith, lo)) (omega (arith, hi)) (omega arith)),
            (λ q m o. u.outside q (ground (arith, m, o))),
          ),
        )
