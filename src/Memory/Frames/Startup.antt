-- ===== src/Memory/Frames/Startup.antt =====
-- What the allocator starts with: `initialize_free_memory` and `new`.
use steelmind_os.Base.{
  ℕ, zero, suc, ◌+◌, ◌*◌, ◌/◌, ◌%◌, ◌^◌, ◌<◌, ◌≤◌, ◌≡◌, refl, true, false, ◌&&◌, not, Option, none,
  some, List, [], ◌∷◌, arith, ◌==◌, mem, length, Distinct, ass_inv, Checked, ok, panic, unwrap,
  ◌>>=◌, ap, Option-cases, inl, inr, Bool-cases,
}
use steelmind_os.Base.Address.{PhysicalMemory, Reachable, Align}
use steelmind_os.Memory.Frames.{FreeNode, Ram, write, State, node_ref-ok}
use steelmind_os.Memory.Frames.Pool.{Chain}
use steelmind_os.Memory.Frames.History.{Holds}
use steelmind_os.Memory.Frames.Init.{
  BootInfo, contains, without, all_frames, scan_ramdisk, ramdisk_frames, node_ref_of_first,
  write_nodes, new, fits, starts_fit,
}
use steelmind_os.Memory.Frames.Ranges.{
  Separate, in_regions, mem-selected, Distinct-selected, aligned-in_regions, size, length-selected,
}

abbrev AllAligned : List ℕ → Type 0
AllAligned [] = Unit {0}
AllAligned (p ∷ ps) = (p % 4096 ≡ 0) × AllAligned ps

module _ (phys : PhysicalMemory) where
  -- The node of the first frame.
  abbrev head_of : List ℕ → Option ℕ
  head_of [] = none
  head_of (p ∷ ps) = some (phys.offset + p)

  abbrev AllReachable : List ℕ → Type 0
  AllReachable [] = Unit {0}
  AllReachable (p ∷ ps) = Reachable phys p × AllReachable ps

  AllReachable-of : (ps : List ℕ) → ((f : ℕ) → mem f ps ≡ true → Reachable phys f) → AllReachable ps
  AllReachable-of [] h = tt
  AllReachable-of (p ∷ ps) h = (h p (ground arith), AllReachable-of ps (λ f i. h f (ground arith)))

  node_ref_of_first-ok :
      (ps : List ℕ) → AllReachable ps → node_ref_of_first phys ps ≡ ok (head_of ps)
  unfolding node_ref_of_first
  node_ref_of_first-ok [] re = refl
  node_ref_of_first-ok (p ∷ ps) re = rw (node_ref-ok phys p re.0) refl

  -- What the loop over the addresses leaves behind.
  record Written (ps : List ℕ) (m : Ram) (n : ℕ) : Type 0 where
    after : Ram
    runs : write_nodes phys ps m n ≡ ok (after, n + length ps)
    chain : Chain phys after (head_of ps) ps
    kept : (q : ℕ) → mem q ps ≡ false → after (phys.offset + q) ≡ m (phys.offset + q)

  write_nodes-Written :
      (ps : List ℕ) (m : Ram) (n : ℕ)
      → Distinct ps
      → AllAligned ps
      → AllReachable ps
      → Written ps m n
  unfolding write_nodes
  write_nodes-Written [] m n d al re = record {
    after = m;
    runs = let e : n + 0 ≡ n = omega arith in rw e;
    chain = refl;
    kept = λ q i. refl;
  }
  write_nodes-Written (p ∷ ps) m n d al re =
      let node : FreeNode = record { next = head_of ps; frame = p } in
      let m' : Ram = write m (phys.offset + p) node in
      let rest : Written ps m' (n + 1) = write_nodes-Written ps m' (n + 1) d.1 al.1 re.1 in
      let aligned : (p % 4096 == 0) ≡ true = ground arith in
      let sum : n + suc (length ps) ≡ n + 1 + length ps = omega arith in
      let there : rest.after (phys.offset + p) ≡ node = ground (arith, rest.kept p) in
      record {
        after = rest.after;
        runs =
            rw (node_ref-ok phys p re.0, node_ref_of_first-ok ps re.1, re.0.physical, aligned, sum)
              rest.runs;
        chain = (refl, rw there, rw there rest.chain);
        kept = λ q i. ground (arith, rest.kept q);
      }

page_cons :
    (tp : ℕ → Option ℕ) (base rounds i l : ℕ)
    → tp (base + i * 4096) ≡ some (l + 4096)
    → ((j : ℕ) → j < rounds → tp (base + (i + 1 + j) * 4096) ≡ some (l + 4096 + 4096 * (j + 1)))
    → (j : ℕ) → j < suc rounds
    → tp (base + (i + j) * 4096) ≡ some (l + 4096 * (j + 1))
page_cons tp base rounds i l h rest zero k = let e : i + 0 ≡ i = omega arith in rw e h
page_cons tp base rounds i l h rest (suc j) k =
    let e : i + suc j ≡ i + 1 + j = omega arith in
    let v : l + 4096 * (suc j + 1) ≡ l + 4096 + 4096 * (j + 1) = omega arith in
    rw (e, v) (rest j (omega arith))

-- Page `i` of the RAM disk lies in the frame that follows the one of page `i - 1`.
scan_rest :
    (tp : ℕ → Option ℕ) (base rounds i f l : ℕ) {f' l' : Option ℕ}
    → scan_ramdisk tp base rounds i (some f) (some l) ≡ ok (f', l')
    → (f' ≡ some f)
      × (l' ≡ some (l + 4096 * rounds))
      × ((j : ℕ) → j < rounds → tp (base + (i + j) * 4096) ≡ some (l + 4096 * (j + 1)))
unfolding scan_ramdisk
scan_rest tp base zero i f l h = (ground arith, ground arith, λ j k. absurd (omega arith))
scan_rest tp base (suc rounds) i f l {f'} {l'} h = elim (Option-cases (tp (base + i * 4096))) [
  | inl e ↦ absurd (ground arith)
  | inr (phys, e) ↦ elim (Bool-cases (phys == l + 4096)) [
    | inl same ↦
        let at : phys ≡ l + 4096 = ground arith in
        let run : scan_ramdisk tp base rounds (i + 1) (some f) (some phys) ≡ ok (f', l') =
          ground arith in
        let (first, last, pages) = scan_rest tp base rounds (i + 1) f phys run in
        (
          first,
          ground (arith, last),
          page_cons tp base rounds i l (rw e (ap some at)) λ j k. rw (← at) (pages j k),
        )
    | inr other ↦ absurd (ground arith)
  ]
]

page_first :
    (tp : ℕ → Option ℕ) (base rounds phys : ℕ)
    → tp (base + 0 * 4096) ≡ some phys
    → ((j : ℕ) → j < rounds → tp (base + (1 + j) * 4096) ≡ some (phys + 4096 * (j + 1)))
    → (i : ℕ) → i < suc rounds
    → tp (base + i * 4096) ≡ some (phys + 4096 * i)
page_first tp base rounds phys h rest zero k = let e : phys + 0 ≡ phys = omega arith in rw e h
page_first tp base rounds phys h rest (suc j) k =
    let e : suc j ≡ 1 + j = omega arith in
    let v : 4096 * (1 + j) ≡ 4096 * (j + 1) = omega arith in rw (e, v) (rest j (omega arith))

ends_of :
    (r : Checked (Option ℕ × Option ℕ)) {range : ℕ × ℕ}
    → (r >>= λ (f, l). unwrap f >>= λ a. unwrap l >>= λ z. ok (a, z)) ≡ ok range
    → (f l : Option ℕ) × (r ≡ ok (f, l)) × (f ≡ some range.0) × (l ≡ some range.1)
ends_of (ok (some a, some z)) h = (some a, some z, refl, ground arith, ground arith)
ends_of (ok (some a, none)) h = absurd (ground arith)
ends_of (ok (none, l)) h = absurd (ground arith)
ends_of panic h = absurd (ground arith)

module _ (A : Align) (tp : ℕ → Option ℕ) (b : BootInfo) where
  -- The pages of the RAM disk, as the loop counts them.
  abbrev pub ramdisk_pages : ℕ
  ramdisk_pages = A.align_up b.ramdisk_len 4096 / 4096

  -- Page `i` of the RAM disk at `addr`.
  abbrev pub ramdisk_page : ℕ → ℕ → ℕ
  ramdisk_page addr i = A.align_down addr 4096 + i * 4096

  scanned :
      (addr rounds : ℕ) {range : ℕ × ℕ} {f l : Option ℕ}
      → scan_ramdisk tp (A.align_down addr 4096) rounds 0 none none ≡ ok (f, l)
      → f ≡ some range.0
      → l ≡ some range.1
      → (i : ℕ) → i < rounds
      → tp (ramdisk_page addr i) ≡ some (range.0 + 4096 * i) × (range.0 + 4096 * i ≤ range.1)
  unfolding scan_ramdisk
  scanned addr zero h hf hl i k = absurd (omega arith)
  scanned addr (suc rounds) {range} {f} {l} h hf hl i k =
      elim (Option-cases (tp (A.align_down addr 4096 + 0 * 4096))) [
        | inl e ↦ absurd (ground arith)
        | inr (phys, e) ↦
            let run : scan_ramdisk tp (A.align_down addr 4096) rounds 1 (some phys) (some phys)
                ≡ ok (f, l) =
              ground arith in
            let (first, last, pages) =
              scan_rest tp (A.align_down addr 4096) rounds 1 phys phys run in
            let low : phys ≡ range.0 = ground arith in
            let high : phys + 4096 * rounds ≡ range.1 = ground arith in
            (
              rw (← low) (page_first tp (A.align_down addr 4096) rounds phys e pages i k),
              omega arith,
            )
      ]

  -- If the search for the RAM disk's frames succeeds, the disk's pages are mapped to successive
  -- frames, all within the range that it returns.
  pub ramdisk_frames-cover :
      {range : ℕ × ℕ} (addr : ℕ)
      → b.ramdisk_addr ≡ some addr
      → ramdisk_frames A tp b ≡ ok range
      → (i : ℕ) → i < ramdisk_pages
      → (tp (ramdisk_page addr i) ≡ some (range.0 + 4096 * i))
        × (contains range (range.0 + 4096 * i) ≡ true)
  unfolding ramdisk_frames
  ramdisk_frames-cover {range} addr at h i k =
      let (f, l, run, hf, hl) =
        ends_of (scan_ramdisk tp (A.align_down addr 4096) ramdisk_pages 0 none none)
          (ass_inv (fits A b.ramdisk_len) _ _ (rw at at h)).1 in
      let (page, below) = scanned addr ramdisk_pages {range = range} run hf hl i k in
      (page, ground arith)

AllAligned-of : (ps : List ℕ) → ((f : ℕ) → mem f ps ≡ true → f % 4096 ≡ 0) → AllAligned ps
AllAligned-of [] h = tt
AllAligned-of (p ∷ ps) h = (h p (ground arith), AllAligned-of ps (λ f i. h f (ground arith)))

-- If the search for the RAM disk's frames succeeds, the memory map's regions do not overlap and are below 2 ^ 64
-- bytes together, the starts of the usable ones can be aligned below 2 ^ 64, and the mapping of the physical memory
-- reaches all their frames, at canonical addresses, then `new` does not panic. The frames that it makes free are
-- those that lie wholly in a usable region that does not start at 0 and are not of the RAM
-- disk; each stands in the free list once, and none is in use.
pub new-Holds :
    (A : Align) (phys : PhysicalMemory) (tp : ℕ → Option ℕ) (b : BootInfo) (ram : Ram)
    {range : ℕ × ℕ}
    → ramdisk_frames A tp b ≡ ok range
    → Separate b.memory_regions
    → size b.memory_regions < 2 ^ 64
    → starts_fit A b.memory_regions ≡ true
    → ((f : ℕ) → in_regions f b.memory_regions ≡ true → Reachable phys f)
    → (s : State) × (frames : List ℕ) × (new A phys tp b ram ≡ ok s)
      × Holds phys frames (record { state = s; used = [] })
      × ((f : ℕ) → mem f frames ≡ (in_regions f b.memory_regions && not (contains range f)))
unfolding new
new-Holds A phys tp b ram {range} found apart small starts reach =
    let ps : List ℕ = without range (all_frames A b.memory_regions) in
    let once : Distinct ps = Distinct-selected A range b.memory_regions apart in
    let al : (f : ℕ) → mem f ps ≡ true → f % 4096 ≡ 0 = λ f i.
      aligned-in_regions b.memory_regions f
        (ground (arith, mem-selected A range b.memory_regions f)) in
    let re : (f : ℕ) → mem f ps ≡ true → Reachable phys f =
      λ f i. reach f (ground (arith, mem-selected A range b.memory_regions f)) in
    let all = AllReachable-of phys ps re in
    let w = write_nodes-Written phys ps ram 0 once (AllAligned-of ps al) all in
    let n : 0 + length ps ≡ length ps = omega arith in
    (
      record {
        alloc = record {
          free_memory_head = head_of phys ps;
          total_frames = length ps;
          free_frames = length ps;
        };
        ram = w.after;
      },
      ps,
      rw (found, starts, node_ref_of_first-ok phys ps all, w.runs, n) refl,
      record {
        free = ps;
        aligned = al;
        reachable = re;
        same = λ f. ground arith;
        pool = record {
          chain = w.chain;
          counted = refl;
          total = omega arith;
          bounded = omega (arith, length-selected A range b.memory_regions);
          free_once = once;
          used_once = tt;
          apart = λ f i. refl;
        };
      },
      mem-selected A range b.memory_regions,
    )
