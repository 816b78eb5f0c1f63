-- ===== src/Loader/Segments/Whole.antt =====
-- What the memory of an application holds after `load` has gone through all segments.
use steelmind_os.Base.{
  ℕ, ◌+◌, ◌-◌, ◌*◌, ◌≤◌, ◌<◌, ◌≡◌, ◌⊎◌, refl, sym, ◌∙◌, arith, ◌==◌, true, false, some, List, [],
  ◌∷◌, length, get_elem?, get_elem?-lt, Checked, ok, panic, ◌>>=◌, unwrap, add64-ok, bind_inv,
  ok_injective,
}
use mathlib.Core.Path.{subst}
use native.Mathlib.Decide.{dec_lt}
use steelmind_os.Constants.{user_end}
use steelmind_os.Memory.Mapping.{Flags}
use steelmind_os.Loader.{segment_flags, final_flags}
use steelmind_os.Loader.Segments.{
  Mapper, Space, Segment, page_of, pt_load, map_pages, map_segment, load_segments,
}
use steelmind_os.Loader.Segments.Pages.{unwrap-some}
use steelmind_os.Loader.Segments.Loading.{
  Loaded, pages_of, pages_of-covers, map_segment-Loaded, map_segment-overfull,
}

not_ok : {A : Type 0} (a : A) (c : Checked A) → c ≡ panic → c ≡ ok a → ⊥
not_ok a c p h = ground (arith, p, h)

module _ {T : Type 0} (M : Mapper T) (held : (frame offset : ℕ) → ℕ) where
  open M use {flags_of, low_canonical}

  -- Where `map_segment` returns, the segment had no more content than its size, and it is loaded.
  map_segment_sound :
      (address size : ℕ) (flags : Flags) (content : List ℕ) (s s' : Space T)
      → 0 < size
      → address + size ≤ user_end
      → map_segment M held address size flags content s ≡ ok s'
      → (length content ≤ size) × Loaded M held address size flags content s s'
  unfolding map_segment user_end
  map_segment_sound address size flags content s s' pos top h =
      elim (dec_lt size (length content)) [
        | yes over ↦
            absurd (not_ok s' _ (map_segment-overfull M held address size flags content s over) h)
        | no fits ↦
            let positive : (address + size == 0) ≡ false = ground (arith, pos) in
            let h' =
              rw
                (
                  low_canonical address (omega (arith, top)),
                  add64-ok address size (omega (arith, top)),
                  low_canonical (address + size) (omega (arith, top)),
                  positive,
                  low_canonical (address + size - 1) (omega (arith, top)),
                )
                at h in
            let (m, run, _) =
              bind_inv (map_pages M held (pages_of address size) (page_of address) flags s) _ _
                h' in
            let (e, run', l) =
              map_segment-Loaded M held address size flags content s m pos top (omega (arith, fits))
                run in
            (
              omega (arith, fits),
              subst (Loaded M held address size flags content s) (ok_injective e s' (sym run' ∙ h))
                  l,
            )
      ]

-- A segment in the user's half that is not empty.
abbrev pub IsPlaced : Segment → Type 0
IsPlaced g = (0 < g.p_memsz) × (g.p_vaddr + g.p_memsz ≤ user_end)

-- The end of a segment's last page.
abbrev pub page_end : Segment → ℕ
page_end g = page_of g.p_vaddr + pages_of g.p_vaddr g.p_memsz * 4096

-- Two segments that share no page.
abbrev pub Apart : Segment → Segment → Type 0
Apart g h = (page_end g ≤ page_of h.p_vaddr) ⊎ (page_end h ≤ page_of g.p_vaddr)

abbrev pub ApartFromAll : Segment → List Segment → Type 0
ApartFromAll g [] = Unit {0}
ApartFromAll g (h ∷ hs) = Apart g h × ApartFromAll g hs

-- All of these segments are to be loaded, and no two of them share a page.
abbrev pub AllPlaced : List Segment → Type 0
AllPlaced [] = Unit {0}
AllPlaced (g ∷ gs) = (g.p_type ≡ pt_load) × IsPlaced g × ApartFromAll g gs × AllPlaced gs

module _ {T : Type 0} (M : Mapper T) where
  open M use {flags_of}

  -- A segment lies in memory: its content, zeros behind it, and the flags of the file on its pages.
  pub record InMemory (g : Segment) (s : Space T) : Type 0 where
    pub flags : Flags
    pub content : List ℕ
    pub flags_ok : segment_flags g.p_flags ≡ ok flags
    pub content_ok : g.segment_data ≡ some content
    pub fits : length content ≤ g.p_memsz
    pub contents : (i b : ℕ) → get_elem? content i ≡ some b → s.bytes (g.p_vaddr + i) ≡ b
    pub zeros : (q : ℕ) → g.p_vaddr + length content ≤ q → q < g.p_vaddr + g.p_memsz → s.bytes q ≡ 0
    pub protected :
        (q : ℕ)
        → g.p_vaddr ≤ q
        → q < g.p_vaddr + g.p_memsz
        → flags_of s.memory.table (page_of q) ≡ some (final_flags flags)

  abbrev pub AllInMemory : List Segment → Space T → Type 0
  AllInMemory [] s = Unit {0}
  AllInMemory (g ∷ gs) s = InMemory g s × AllInMemory gs s

  -- Nothing on the pages of segment `g` differs.
  record Same (g : Segment) (s s' : Space T) : Type 0 where
    bytes :
        (q : ℕ) → page_of g.p_vaddr ≤ page_of q → page_of q < page_end g → s'.bytes q ≡ s.bytes q
    flags :
        (p : ℕ)
        → page_of g.p_vaddr ≤ p
        → p < page_end g
        → flags_of s'.memory.table p ≡ flags_of s.memory.table p

  InMemory-Same : (g : Segment) (s s' : Space T) → Same g s s' → InMemory g s → InMemory g s'
  InMemory-Same g s s' k m =
      let cover = pages_of-covers g.p_vaddr g.p_memsz in
      record {
        flags = m.flags;
        content = m.content;
        flags_ok = m.flags_ok;
        content_ok = m.content_ok;
        fits = m.fits;
        contents = λ i b h.
            let here =
              cover (g.p_vaddr + i) (omega arith)
                (omega (arith, get_elem?-lt m.content i h, m.fits)) in
            k.bytes (g.p_vaddr + i) here.0 here.1 ∙ m.contents i b h;
        zeros = λ q lo hi.
            let here = cover q (omega (arith, lo)) hi in k.bytes q here.0 here.1 ∙ m.zeros q lo hi;
        protected = λ q lo hi.
            let here = cover q lo hi in k.flags (page_of q) here.0 here.1 ∙ m.protected q lo hi;
      }

  Same-trans : (g : Segment) (s t u : Space T) → Same g s t → Same g t u → Same g s u
  Same-trans g s t u a b = record {
    bytes = λ q lo hi. b.bytes q lo hi ∙ a.bytes q lo hi;
    flags = λ p lo hi. b.flags p lo hi ∙ a.flags p lo hi;
  }

  module _ (held : (frame offset : ℕ) → ℕ) where
    -- Loading one segment: it is in memory, and the pages of others are the same.
    load_one :
        (g : Segment) (gs : List Segment) (s s' : Space T)
        → g.p_type ≡ pt_load
        → IsPlaced g
        → load_segments M held (g ∷ gs) s ≡ ok s'
        → (t : Space T) × InMemory g t
          × ((h : Segment) → Apart g h → Same h s t)
          × (load_segments M held gs t ≡ ok s')
    unfolding load_segments
    load_one g gs s s' type placed run =
        let is_load : (g.p_type == pt_load) ≡ true = ground (arith, type) in
        let one : Checked (Space T) = segment_flags g.p_flags >>= λ flags.
        unwrap g.segment_data >>= λ content.
        map_segment M held g.p_vaddr g.p_memsz flags content s in
        let (t, run1, rest) =
          bind_inv one (λ x. load_segments M held gs x) s' (rw is_load at run) in
        let (flags, flags_ok, run2) = bind_inv (segment_flags g.p_flags) _ _ run1 in
        let (content, content_ok, run3) = bind_inv (unwrap g.segment_data) _ _ run2 in
        let (fits, l) =
          map_segment_sound M held g.p_vaddr g.p_memsz flags content s t placed.0 placed.1 run3 in
        (
          t,
          record {
            flags = flags;
            content = content;
            flags_ok = flags_ok;
            content_ok = unwrap-some g.segment_data content content_ok;
            fits = fits;
            contents = l.contents;
            zeros = l.zeros;
            protected = l.protected;
          },
          (λ h a. record {
            bytes = λ q lo hi. l.other_bytes q (ground (arith, a, lo, hi));
            flags = λ p lo hi. l.other_flags p (ground (arith, a, lo, hi));
          }),
          rest,
        )

    load_segments-Same :
        (g : Segment) (gs : List Segment) (s s' : Space T)
        → ApartFromAll g gs
        → AllPlaced gs
        → load_segments M held gs s ≡ ok s'
        → Same g s s'
    unfolding load_segments
    load_segments-Same g [] s s' apart all run =
        subst (Same g s) (ok_injective s s' run)
          (record { bytes = λ q lo hi. refl; flags = λ p lo hi. refl })
    load_segments-Same g (h ∷ hs) s s' (apart, more) (type, placed, others, all) run =
        let (t, there, same, rest) = load_one h hs s s' type placed run in
        Same-trans g s t s' (same g (ground (arith, apart)))
          (load_segments-Same g hs t s' more all rest)

    -- When `load` has gone through segments that are all to be loaded, lie in the user's half, are not empty and share no
    -- page, without a panic: each of them is in memory with its content, zeros behind it and its flags, whatever
    -- came after it.
    pub load_segments-AllInMemory :
        (gs : List Segment) (s s' : Space T)
        → AllPlaced gs
        → load_segments M held gs s ≡ ok s'
        → AllInMemory gs s'
    load_segments-AllInMemory [] s s' all run = tt
    load_segments-AllInMemory (g ∷ gs) s s' (type, placed, others, all) run =
        let (t, there, same, rest) = load_one g gs s s' type placed run in
        (
          InMemory-Same g t s' (load_segments-Same g gs t s' others all rest) there,
          load_segments-AllInMemory gs t s' all rest,
        )
