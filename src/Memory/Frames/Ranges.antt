-- ===== src/Memory/Frames/Ranges.antt =====
-- Which frames the startup code selects, and that it selects none twice.
use steelmind_os.Base.{
  ℕ, zero, suc, ◌+◌, ◌-◌, ◌*◌, ◌/◌, ◌%◌, ◌≤◌, ◌≡◌, ◌⊎◌, refl, Bool, true, false, ◌&&◌, ◌||◌, not,
  List, [], ◌∷◌, arith, leb, ltb, ◌==◌, mem, mem-append, Distinct, Distinct-append, Bool-cases, inl,
  inr, length, length-append, ap, sym, ◌∙◌,
}
use steelmind_os.Base.Address.{Align}
use steelmind_os.Memory.Frames.Init.{
  MemoryRegion, contains, is_candidate, frames_from, step_by_frame, without, region_frames,
  all_frames,
}

-- `n` frames from an aligned start: the aligned addresses of that stretch.
mem-frames_from :
    (n s f : ℕ)
    → s % 4096 ≡ 0
    → mem f (frames_from n s) ≡ (leb s f && ltb f (s + 4096 * n) && (f % 4096 == 0))
unfolding frames_from
mem-frames_from zero s f h = ground arith
mem-frames_from (suc n) s f h = ground (arith, mem-frames_from n (s + 4096) f)

Distinct-frames_from : (n s : ℕ) → s % 4096 ≡ 0 → Distinct (frames_from n s)
unfolding frames_from
Distinct-frames_from zero s h = tt
Distinct-frames_from (suc n) s h = (
  ground (arith, mem-frames_from n (s + 4096) s),
  Distinct-frames_from n (s + 4096) (omega arith),
)

-- A frame is among those of a region exactly when it is aligned and the region is usable, does
-- not start at 0 and holds the whole frame.
abbrev pub holds_frame : ℕ → MemoryRegion → Bool
holds_frame f r = is_candidate r && (leb r.start f && leb (f + 4096) r.end && (f % 4096 == 0))

-- The frame lies in some region that the allocator uses.
abbrev pub in_regions : ℕ → List MemoryRegion → Bool
in_regions f [] = false
in_regions f (r ∷ rs) = holds_frame f r || in_regions f rs

-- Regions do not overlap.
abbrev pub Apart : MemoryRegion → List MemoryRegion → Type 0
Apart r [] = Unit {0}
Apart r (s ∷ ss) = ((r.end ≤ s.start) ⊎ (s.end ≤ r.start)) × Apart r ss

abbrev pub Separate : List MemoryRegion → Type 0
Separate [] = Unit {0}
Separate (r ∷ rs) = Apart r rs × Separate rs

not_in_others :
    (r : MemoryRegion) (rs : List MemoryRegion) (f : ℕ)
    → Apart r rs
    → holds_frame f r ≡ true
    → in_regions f rs ≡ false
not_in_others r [] f h e = refl
not_in_others r (s ∷ ss) f h e = ground (arith, not_in_others r ss f)

pub mem-without :
    (range : ℕ × ℕ) (ps : List ℕ) (f : ℕ)
    → mem f (without range ps) ≡ (mem f ps && not (contains range f))
unfolding without
mem-without range [] f = refl
mem-without range (p ∷ ps) f = ground (arith, mem-without range ps f)

Distinct-without : (range : ℕ × ℕ) (ps : List ℕ) → Distinct ps → Distinct (without range ps)
unfolding without
Distinct-without range [] h = tt
Distinct-without range (p ∷ ps) h =
    ground (arith, Distinct-without range ps, mem-without range ps p)

pub aligned-in_regions : (rs : List MemoryRegion) (f : ℕ) → in_regions f rs ≡ true → f % 4096 ≡ 0
aligned-in_regions [] f h = absurd (cc)
aligned-in_regions (r ∷ rs) f h = ground (arith, aligned-in_regions rs f)

-- The bytes of all regions together.
abbrev pub size : List MemoryRegion → ℕ
size [] = 0
size (r ∷ rs) = (r.end - r.start) + size rs

length-frames_from : (n s : ℕ) → length (frames_from n s) ≡ n
unfolding frames_from
length-frames_from zero s = refl
length-frames_from (suc n) s = ap suc (length-frames_from n (s + 4096))

pub length-without : (range : ℕ × ℕ) (ps : List ℕ) → length (without range ps) ≤ length ps
unfolding without
length-without range [] = omega arith
length-without range (p ∷ ps) = ground (arith, length-without range ps)

module _ (A : Align) where
  open A use {align_up, align_down}

  mem-step_by_frame :
      (start end f : ℕ)
      → start % 4096 ≡ 0
      → end % 4096 ≡ 0
      → mem f (step_by_frame start end) ≡ (leb start f && ltb f end && (f % 4096 == 0))
  unfolding step_by_frame
  mem-step_by_frame start end f h k =
      ground (arith, mem-frames_from ((end - start + 4095) / 4096) start f)

  mem-region_frames : (r : MemoryRegion) (f : ℕ) → mem f (region_frames A r) ≡ holds_frame f r
  unfolding region_frames
  mem-region_frames r f = elim (Bool-cases (is_candidate r)) [
    | inl e ↦ rw e (
        ground (
          arith,
          mem-step_by_frame (align_up r.start 4096) (align_down r.end 4096) f,
          A.up_ge r.start 12,
          A.up_multiple r.start 12,
          A.up_least r.start 12 f,
          A.down_le r.end 12,
          A.down_multiple r.end 12,
          A.down_greatest r.end 12 (f + 4096),
        ))
    | inr e ↦ rw e
  ]

  mem-all_frames : (rs : List MemoryRegion) (f : ℕ) → mem f (all_frames A rs) ≡ in_regions f rs
  unfolding all_frames
  mem-all_frames [] f = refl
  mem-all_frames (r ∷ rs) f = rw (
    mem-append f (region_frames A r) (all_frames A rs),
    mem-region_frames r f,
    mem-all_frames rs f,
  )

  Distinct-region_frames : (r : MemoryRegion) → Distinct (region_frames A r)
  unfolding region_frames step_by_frame
  Distinct-region_frames r = elim (Bool-cases (is_candidate r)) [
    | inl e ↦ rw e (Distinct-frames_from _ (align_up r.start 4096) (A.up_multiple r.start 12))
    | inr e ↦ rw e tt
  ]

  Distinct-all_frames : (rs : List MemoryRegion) → Separate rs → Distinct (all_frames A rs)
  unfolding all_frames
  Distinct-all_frames [] h = tt
  Distinct-all_frames (r ∷ rs) h =
      Distinct-append (region_frames A r) (all_frames A rs) (Distinct-region_frames r)
        (Distinct-all_frames rs h.1)
        λ f i. mem-all_frames rs f ∙ not_in_others r rs f h.0 (sym (mem-region_frames r f) ∙ i)

  -- The frames that the allocator starts with, told without its loops.
  pub mem-selected :
      (range : ℕ × ℕ) (rs : List MemoryRegion) (f : ℕ)
      → mem f (without range (all_frames A rs)) ≡ (in_regions f rs && not (contains range f))
  mem-selected range rs f = rw (mem-without range (all_frames A rs) f, mem-all_frames rs f)

  pub Distinct-selected :
      (range : ℕ × ℕ) (rs : List MemoryRegion)
      → Separate rs
      → Distinct (without range (all_frames A rs))
  Distinct-selected range rs h = Distinct-without range (all_frames A rs) (Distinct-all_frames rs h)

  length-all_frames : (rs : List MemoryRegion) → length (all_frames A rs) ≤ size rs
  unfolding all_frames region_frames step_by_frame
  length-all_frames [] = omega arith
  length-all_frames (r ∷ rs) = elim (Bool-cases (is_candidate r)) [
    | inl e ↦
        let n : ℕ = (align_down r.end 4096 - align_up r.start 4096 + 4095) / 4096 in
        rw e (
          omega (
            arith,
            length-append (frames_from n (align_up r.start 4096)) (all_frames A rs),
            length-frames_from n (align_up r.start 4096),
            length-all_frames rs,
            A.up_ge r.start 12,
            A.down_le r.end 12,
          ))
    | inr e ↦ rw e (omega (arith, length-all_frames rs))
  ]

  pub length-selected :
      (range : ℕ × ℕ) (rs : List MemoryRegion) → length (without range (all_frames A rs)) ≤ size rs
  length-selected range rs =
      omega (arith, length-without range (all_frames A rs), length-all_frames rs)
