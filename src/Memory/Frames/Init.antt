-- ===== src/Memory/Frames/Init.antt =====
-- `initialize_free_memory` and `new`: the frames of the usable memory regions, without those that
-- the RAM disk occupies, become the free list.
use steelmind_os.Base.{
  ℕ, zero, suc, ◌+◌, ◌-◌, ◌*◌, ◌/◌, ◌%◌, ◌^◌, ◌||◌, not, Bool, true, false, ◌&&◌, Option, none,
  some, List, [], ◌∷◌, ◌++◌, leb, ltb, ◌==◌, if◌then◌else◌, Checked, ok, ◌>>=◌, ◌>>◌, ass, unwrap,
}
use steelmind_os.Base.Address.{PhysicalMemory, phys_addr, Align}
use steelmind_os.Memory.Frames.{Ram, write, State, phys_addr_to_node_ref}

pub data MemoryRegionKind : Type 0 where
  usable bootloader unknown : MemoryRegionKind

pub record MemoryRegion : Type 0 where
  pub start : ℕ
  pub end : ℕ
  pub kind : MemoryRegionKind

pub record BootInfo : Type 0 where
  pub ramdisk_addr : Option ℕ
  pub ramdisk_len : ℕ
  pub memory_regions : List MemoryRegion

-- `start..=end`
abbrev pub contains : ℕ × ℕ → ℕ → Bool
contains (first, last) x = leb first x && leb x last

-- `frames_from n s` is `s, s + 4096, …`, `n` of them; the range has that many steps.
unfoldable pub frames_from : ℕ → ℕ → List ℕ
frames_from zero s = []
frames_from (suc n) s = s ∷ frames_from n (s + 4096)

unfoldable pub step_by_frame : ℕ → ℕ → List ℕ
step_by_frame start end = frames_from ((end - start + 4095) / 4096) start

abbrev is_usable : MemoryRegionKind → Bool
is_usable usable = true
is_usable _ = false

-- A region that the allocator uses.
abbrev pub is_candidate : MemoryRegion → Bool
is_candidate r = is_usable r.kind && ltb 0 r.start

-- The loop that finds the frames of the RAM disk: `rounds` are left, `i` is the index.
-- `translate_page` is the page table that the boot loader set up;
-- it has `none` also for an address that is not a page's, on which the code panics as well.
unfoldable pub scan_ramdisk :
    (ℕ → Option ℕ) → ℕ → ℕ → ℕ → Option ℕ → Option ℕ → Checked (Option ℕ × Option ℕ)
scan_ramdisk translate_page base zero i first last = ok (first, last)
scan_ramdisk translate_page base (suc rounds) i first last = do
  phys ← unwrap (translate_page (base + i * 4096))
  elim last [
    | none ↦ scan_ramdisk translate_page base rounds (i + 1) (some phys) (some phys)
    | some l ↦ do
      ass (phys == l + 4096)
      scan_ramdisk translate_page base rounds (i + 1) first (some phys)
  ]

unfoldable pub without : ℕ × ℕ → List ℕ → List ℕ
without range [] = []
without range (p ∷ ps) = let rest = without range ps in if contains range p then rest else p ∷ rest

module _ (A : Align) where
  open A use {align_up, align_down}

  -- `align_up` panics past 2^64.
  abbrev pub fits : ℕ → Bool
  fits x = ltb (align_up x 4096) (2 ^ 64)

  abbrev pub starts_fit : List MemoryRegion → Bool
  starts_fit [] = true
  starts_fit (r ∷ rs) = (not (is_candidate r) || fits r.start) && starts_fit rs

  unfoldable pub ramdisk_frames : (ℕ → Option ℕ) → BootInfo → Checked (ℕ × ℕ)
  ramdisk_frames translate_page b = do
    addr ← unwrap b.ramdisk_addr
    let base = align_down addr 4096
    ass (fits b.ramdisk_len)
    (first, last) ←
        scan_ramdisk translate_page base (align_up b.ramdisk_len 4096 / 4096) 0 none none
    first_phys_addr ← unwrap first
    last_phys_addr ← unwrap last
    ok (first_phys_addr, last_phys_addr)

  unfoldable pub region_frames : MemoryRegion → List ℕ
  region_frames r =
      if is_candidate r then step_by_frame (align_up r.start 4096) (align_down r.end 4096) else []

  unfoldable pub all_frames : List MemoryRegion → List ℕ
  all_frames [] = []
  all_frames (r ∷ rs) = region_frames r ++ all_frames rs

module _ (phys : PhysicalMemory) where
  unfoldable pub node_ref_of_first : List ℕ → Checked (Option ℕ)
  node_ref_of_first [] = ok none
  node_ref_of_first (p ∷ ps) = do node ← phys_addr_to_node_ref phys p; ok (some node)

  -- The loop over the peekable iterator. Turning an address into a frame panics unless the
  -- address is a multiple of 4096.
  unfoldable pub write_nodes : List ℕ → Ram → ℕ → Checked (Ram × ℕ)
  write_nodes [] m frame_count = ok (m, frame_count)
  write_nodes (p ∷ ps) m frame_count = do
    node_ref ← phys_addr_to_node_ref phys p
    node_next_ref ← node_ref_of_first ps
    frame ← phys_addr phys p
    ass (frame % 4096 == 0)
    write_nodes ps (write m node_ref (record { next = node_next_ref; frame = frame }))
        (frame_count + 1)

module _ (A : Align) (phys : PhysicalMemory) where
  unfoldable pub new : (ℕ → Option ℕ) → BootInfo → Ram → Checked State
  new translate_page b ram = do
    already_mapped_range ← ramdisk_frames A translate_page b
    let addresses = without already_mapped_range (all_frames A b.memory_regions)
    ass (starts_fit A b.memory_regions)
    free_memory_head ← node_ref_of_first phys addresses
    (m, frame_count) ← write_nodes phys addresses ram 0
    ok (record {
      alloc = record {
        free_memory_head = free_memory_head;
        total_frames = frame_count;
        free_frames = frame_count;
      };
      ram = m;
    })
