-- ===== src/Loader/Segments.antt =====
-- kernel/src/loader.rs: the segments of an application are mapped and filled.
pub mod Stores
pub mod Pages
pub mod Loading
pub mod Whole
pub mod Sample
mod Examples
use steelmind_os.Base.{
  ℕ, zero, suc, ◌+◌, ◌-◌, ◌*◌, ◌/◌, ◌%◌, ◌^◌, ◌<◌, ◌≡◌, ◌≢◌, ◌==◌, leb, if◌then◌else◌, Bool, true,
  false, not, ◌&&◌, Option, none, some, List, [], ◌∷◌, length, Checked, ok, panic, ◌>>=◌, ◌>>◌, ass,
  unwrap, add64, put,
}
use steelmind_os.Memory.Mapping.{Flags, Memory, map_ram_user}
use steelmind_os.Loader.{segment_flags, final_flags}

-- The crate `x86_64`: the mapper of 4 KiB pages, on page tables `T`. It gives a page its flags and leaves the other
-- pages alone; the flags of a page that is mapped can be changed. An address must be canonical, as those of
-- the lower half are.
pub record Mapper (T : Type 0) : Type 0 where
  pub is_canonical : ℕ → Bool
  pub flags_of : T → (page : ℕ) → Option Flags
  pub map_to : (page : ℕ) → Flags → (frame : ℕ) → Memory T → Option (Memory T)
  pub update_flags : (page : ℕ) → Flags → T → Option T
  pub low_canonical : (a : ℕ) → a < 2 ^ 47 → is_canonical a ≡ true
  pub map_sets :
      (page : ℕ) (flags : Flags) (frame : ℕ) (m m' : Memory T)
      → map_to page flags frame m ≡ some m'
      → flags_of m'.table page ≡ some flags
  pub map_keeps :
      (page : ℕ) (flags : Flags) (frame : ℕ) (m m' : Memory T) (q : ℕ)
      → map_to page flags frame m ≡ some m'
      → page ≢ q
      → flags_of m'.table q ≡ flags_of m.table q
  pub update_sets :
      (page : ℕ) (flags f : Flags) (t : T)
      → flags_of t page ≡ some f
      → (t' : T) × (update_flags page flags t ≡ some t')
        × (flags_of t' page ≡ some flags)
        × ((q : ℕ) → page ≢ q → flags_of t' q ≡ flags_of t q)

-- An address space: its tables with the frames, and the bytes that the core sees in it.
pub record Space (T : Type 0) : Type 0 where
  pub memory : Memory T
  pub bytes : ℕ → ℕ

-- `Page::containing_address`
abbrev pub page_of : ℕ → ℕ
page_of a = a / 4096 * 4096

-- A segment of an ELF file, from the crate `elf`; `segment_data` is `none` where the crate fails.
pub record Segment : Type 0 where
  pub p_type : ℕ
  pub p_vaddr : ℕ
  pub p_memsz : ℕ
  pub p_flags : ℕ
  pub segment_data : Option (List ℕ)

-- What `minimal_parse` and `segments` find in a file.
pub record Elf : Type 0 where
  pub e_entry : ℕ
  pub segments : Option (List Segment)

abbrev pub pt_load : ℕ
pt_load = 1

-- `flags | PageTableFlags::WRITABLE`
abbrev pub loading_flags : Flags → Flags
loading_flags flags = record flags { writable = true }

abbrev pub may_write : Option Flags → Bool
may_write none = false
may_write (some f) = f.present && f.writable

-- `PageRangeInclusive`: how many pages it has.
unfoldable pub page_count : (first last : ℕ) → ℕ
page_count first last = if leb first last then (last - first) / 4096 + 1 else 0

module _ {T : Type 0} (M : Mapper T) (held : (frame offset : ℕ) → ℕ) where
  open M use {is_canonical, flags_of, map_to, update_flags}

  -- `VirtAddr::new`
  abbrev virt_addr : ℕ → Checked ℕ
  virt_addr a = if is_canonical a then ok a else panic

  -- One page for `map_segment`: it shows what its frame holds.
  unfoldable pub map_page : (page : ℕ) → Flags → Space T → Checked (Space T)
  map_page page flags s = do
    (frame, m) ← map_ram_user map_to page (loading_flags flags) s.memory
    ok (record {
      memory = m;
      bytes = λ a. if page_of a == page then held frame (a % 4096) else s.bytes a;
    })

  -- A byte is stored: a page fault panics.
  unfoldable pub store : (address value : ℕ) → Space T → Checked (Space T)
  store a v s =
      if may_write (flags_of s.memory.table (page_of a))
      then ok (record s { bytes = put s.bytes a v })
      else panic

  -- `fill(0)`, from address `a` on.
  unfoldable pub fill : (rounds a : ℕ) → Space T → Checked (Space T)
  fill zero a s = ok s
  fill (suc rounds) a s = do s' ← store a 0 s; fill rounds (a + 1) s'

  -- `copy_from_slice`
  unfoldable pub copy : (a : ℕ) → List ℕ → Space T → Checked (Space T)
  copy a [] s = ok s
  copy a (b ∷ bs) s = do s' ← store a b s; copy (a + 1) bs s'

  unfoldable pub change_flags : (page : ℕ) → Flags → Space T → Checked (Space T)
  change_flags page flags s = do
    table ← unwrap (update_flags page flags s.memory.table)
    ok (record s { memory = record s.memory { table = table } })

  -- The loops over the pages, from `page` on.
  unfoldable pub map_pages : (rounds page : ℕ) → Flags → Space T → Checked (Space T)
  map_pages zero page flags s = ok s
  map_pages (suc rounds) page flags s = do
    s' ← map_page page flags s
    map_pages rounds (page + 4096) flags s'

  unfoldable pub change_pages : (rounds page : ℕ) → Flags → Space T → Checked (Space T)
  change_pages zero page flags s = ok s
  change_pages (suc rounds) page flags s = do
    s' ← change_flags page flags s
    change_pages rounds (page + 4096) flags s'

  unfoldable pub map_segment : (virt_addr size : ℕ) → Flags → List ℕ → Space T → Checked (Space T)
  unfolding page_count
  map_segment address size flags content s = do
    region_start ← virt_addr address
    end ← add64 region_start size
    after ← virt_addr end
    ass (not (after == 0))
    region_end ← virt_addr (after - 1)
    let first = page_of region_start
    let count = page_count first (page_of region_end)
    mapped ← map_pages count first flags s
    cleared ← fill size address mapped
    ass (leb (length content) size)
    filled ← copy address content cleared
    change_pages count first (final_flags flags) filled

  -- The loop of `load`.
  unfoldable pub load_segments : List Segment → Space T → Checked (Space T)
  load_segments [] s = ok s
  load_segments (g ∷ gs) s =
      let load_one : Checked (Space T) = (do
        flags ← segment_flags g.p_flags
        content ← unwrap g.segment_data
        map_segment g.p_vaddr g.p_memsz flags content s) in
      (if g.p_type == pt_load then load_one else ok s) >>= λ s'. load_segments gs s'

  -- `file` is the result of `ElfBytes::minimal_parse`.
  unfoldable pub load : (file : Option Elf) → Space T → Checked (ℕ × Space T)
  load file s = do
    elf ← unwrap file
    segments ← unwrap elf.segments
    s' ← load_segments segments s
    ok (elf.e_entry, s')
