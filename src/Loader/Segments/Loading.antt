-- ===== src/Loader/Segments/Loading.antt =====
-- What a segment looks like after it has been loaded.
use steelmind_os.Base.{
  ℕ, ◌+◌, ◌-◌, ◌*◌, ◌%◌, ◌≤◌, ◌<◌, ◌≡◌, inl, inr, refl, ◌∙◌, arith, ◌==◌, if◌then◌else◌, false, leb,
  not, some, List, length, get_elem?, ok, panic, ass, add64, add64-ok, le→leb, lt→leb, bind_panic,
  ass-false, Returns,
}
use steelmind_os.Constants.{user_end}
use steelmind_os.Memory.Mapping.{Flags}
use steelmind_os.Loader.{final_flags}
use steelmind_os.Loader.Segments.{
  Mapper, Space, page_of, page_count, loading_flags, map_pages, fill, copy, change_pages,
  map_segment,
}
use steelmind_os.Loader.Segments.Stores.{Outside, fill-Filled, copy-Copied}
use steelmind_os.Loader.Segments.Pages.{user_flags, map_pages-Mapped, change_pages-Changed}

-- How many pages a segment lies in.
abbrev pub pages_of : (address size : ℕ) → ℕ
pages_of address size = page_count (page_of address) (page_of (address + size - 1))

pub pages_of-covers :
    (address size q : ℕ)
    → address ≤ q
    → q < address + size
    → (page_of address ≤ page_of q) × (page_of q < page_of address + pages_of address size * 4096)
unfolding page_count
pages_of-covers address size q lo hi = ground arith

pages_of-last :
    (address size : ℕ)
    → 0 < size
    → page_of address + pages_of address size * 4096 ≡ page_of (address + size - 1) + 4096
unfolding page_count
pages_of-last address size h = ground arith

-- Bytes of other pages lie outside of any part of the segment that begins at its address.
far :
    (address n size a : ℕ)
    → 0 < size
    → n ≤ size
    → Outside (page_of address) (pages_of address size * 4096) (page_of a)
    → Outside address n a
far address n size a h le (inl low) = inl (omega (arith, low))
far address n size a h le (inr high) = inr (omega (arith, le, high, pages_of-last address size h))

module _ {T : Type 0} (M : Mapper T) (held : (frame offset : ℕ) → ℕ) where
  open M use {is_canonical, flags_of, low_canonical}

  pub record Loaded (address size : ℕ) (flags : Flags) (content : List ℕ) (s s' : Space T)
      : Type 0 where
    pub contents : (i b : ℕ) → get_elem? content i ≡ some b → s'.bytes (address + i) ≡ b
    pub zeros : (q : ℕ) → address + length content ≤ q → q < address + size → s'.bytes q ≡ 0
    pub protected :
        (q : ℕ)
        → address ≤ q
        → q < address + size
        → flags_of s'.memory.table (page_of q) ≡ some (final_flags flags)
    pub other_flags :
        (q : ℕ)
        → Outside (page_of address) (pages_of address size * 4096) q
        → flags_of s'.memory.table q ≡ flags_of s.memory.table q
    pub other_bytes :
        (a : ℕ)
        → Outside (page_of address) (pages_of address size * 4096) (page_of a)
        → s'.bytes a ≡ s.bytes a

  map_segment-run :
      (address size : ℕ) (flags : Flags) (content : List ℕ) (s m c d e : Space T)
      → 0 < size
      → address + size ≤ user_end
      → length content ≤ size
      → map_pages M held (pages_of address size) (page_of address) flags s ≡ ok m
      → fill M held size address m ≡ ok c
      → copy M held address content c ≡ ok d
      → change_pages M held (pages_of address size) (page_of address) (final_flags flags) d ≡ ok e
      → map_segment M held address size flags content s ≡ ok e
  unfolding map_segment user_end
  map_segment-run address size flags content s m c d e some_size top len run run1 run2 run3 =
      let positive : (address + size == 0) ≡ false = ground (arith, some_size) in
      rw (low_canonical address (omega (arith, top))) (
        rw (add64-ok address size (omega (arith, top))) (
          rw (low_canonical (address + size) (omega (arith, top))) (
            rw positive (
              rw (low_canonical (address + size - 1) (omega (arith, top)))
                (rw run (rw run1 (rw (le→leb (length content) size len) (rw run2 run3))))))))

  -- For a segment that ends in the user's half, is not empty and has no more content than its size:
  -- when its pages can be mapped, `map_segment` returns. Then the segment holds its content and
  -- zeros behind it, all its pages have their final flags, and no other page has changed, neither
  -- its flags nor its bytes.
  pub map_segment-Loaded :
      (address size : ℕ) (flags : Flags) (content : List ℕ) (s m : Space T)
      → 0 < size
      → address + size ≤ user_end
      → length content ≤ size
      → map_pages M held (pages_of address size) (page_of address) flags s ≡ ok m
      → Returns
          (Loaded address size flags content s)
          (map_segment M held address size flags content s)
  map_segment-Loaded address size flags content s m some_size top len run =
      let n = pages_of address size in
      let p = page_of address in
      let p0 : p % 4096 ≡ 0 = omega arith in
      let cover = pages_of-covers address size in
      let mapped = map_pages-Mapped M held n p flags s m p0 run in
      let there : (q : ℕ)
          → address ≤ q
          → q < address + size
          → flags_of m.memory.table (page_of q) ≡ some (user_flags (loading_flags flags)) =
        λ q lo hi. mapped.inside (page_of q) (omega arith) (cover q lo hi).0 (cover q lo hi).1 in
      let (c, run1, filled) =
        fill-Filled M held size address m (λ q lo hi. rw (there q lo hi) refl) in
      let (d, run2, copied) =
        copy-Copied M held content address c
          (λ q lo hi. rw filled.memory (rw (there q lo (omega (arith, hi, len))) refl)) in
      let (e, run3, changed) =
        change_pages-Changed M held n p (final_flags flags) (user_flags (loading_flags flags)) d p0
          (λ q q0 lo hi. rw copied.memory (rw filled.memory (mapped.inside q q0 lo hi))) in
      (
        e,
        map_segment-run address size flags content s m c d e some_size top len run run1 run2 run3,
        record {
          contents = λ i b h. rw changed.bytes (copied.inside i b h);
          zeros = λ q lo hi.
              rw changed.bytes (copied.outside q (inr lo) ∙ filled.inside q (omega (arith, lo)) hi);
          protected = λ q lo hi.
              changed.inside (page_of q) (omega arith) (cover q lo hi).0 (cover q lo hi).1;
          other_flags =
              λ q o. changed.outside q o ∙ rw copied.memory (rw filled.memory (mapped.outside q o));
          other_bytes = λ a o. rw changed.bytes (
              copied.outside a (far address (length content) size a some_size len o)
              ∙ filled.outside a (far address size size a some_size (omega arith) o)
              ∙ mapped.bytes a o);
        },
      )

  -- A segment with more content than its size panics, whatever the mapping does.
  pub map_segment-overfull :
      (address size : ℕ) (flags : Flags) (content : List ℕ) (s : Space T)
      → size < length content
      → map_segment M held address size flags content s ≡ panic
  unfolding map_segment
  map_segment-overfull address size flags content s h =
      bind_panic (if is_canonical address then ok address else panic) _ (λ region_start.
        bind_panic (add64 region_start size) _ (λ end.
          bind_panic (if is_canonical end then ok end else panic) _ (λ after.
            bind_panic (ass (not (after == 0))) _ (λ _.
              bind_panic (if is_canonical (after - 1) then ok (after - 1) else panic) _
                (λ region_end.
                  let first = page_of region_start in
                  bind_panic
                    (map_pages M held (page_count first (page_of region_end)) first flags s) _
                    (λ mapped. bind_panic (fill M held size address mapped) _ (λ cleared.
                      ass-false (leb (length content) size) _
                        (lt→leb (length content) size h))))))))
