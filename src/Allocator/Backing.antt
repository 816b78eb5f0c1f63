-- ===== src/Allocator/Backing.antt =====
-- kernel/src/allocator.rs with kernel/src/memory.rs: the pages of a heap are mapped when it grows.
use steelmind_os.Base.{
  ℕ, ◌+◌, ◌^◌, ◌≤◌, ◌≡◌, refl, sym, ap, ◌∙◌, arith, true, false, ltb, leb, ◌&&◌, some, List, [],
  ◌∷◌, ◌++◌, length, drop, drop-append, Checked, ok, ◌>>=◌, ass_inv, unwrap_inv, bind_inv,
  ok_injective,
}
use mathlib.Core.Path.{subst}
use native.Mathlib.Decide.{ℕ_discrete}
use steelmind_os.Base.Address.{Align}
use steelmind_os.Constants.{user_heap_start, user_start, user_end}
use steelmind_os.Memory.Frames.{allocate_frame}
use steelmind_os.Memory.Mapping.{Flags, Memory, map_frame, map_ram_user, map_ram_kernel}
use steelmind_os.Loader.Segments.{Mapper}
use steelmind_os.Allocator.Growth.{IsHeap, grow-IsHeap}
use steelmind_os.Allocator.{Buddy, Layout, Grown, grow_user_heap, grow_kernel_heap}

-- `PRESENT | WRITABLE | NO_EXECUTE`, and what `map_ram_user` adds.
abbrev pub heap_flags : Flags
heap_flags = record { present = true; writable = true; user_accessible = false; no_execute = true }

abbrev pub user_heap_flags : Flags
user_heap_flags = record heap_flags { user_accessible = true }

module _ {T : Type 0} (M : Mapper T) where
  open M use {flags_of, map_to}

  -- The loops over `page_range`.
  unfoldable pub map_user_pages : List ℕ → Memory T → Checked (Memory T)
  map_user_pages [] m = ok m
  map_user_pages (page ∷ pages) m = do
    (frame, m') ← map_ram_user map_to page heap_flags m
    map_user_pages pages m'

  unfoldable pub map_kernel_pages : List ℕ → Memory T → Checked (Memory T)
  map_kernel_pages [] m = ok m
  map_kernel_pages (page ∷ pages) m = do
    (frame, m') ← map_ram_kernel map_to page heap_flags m
    map_kernel_pages pages m'

  -- Each of these pages has the flags.
  abbrev pub AllMapped : Flags → List ℕ → Memory T → Type 0
  AllMapped flags [] m = Unit {0}
  AllMapped flags (page ∷ pages) m = (flags_of m.table page ≡ some flags) × AllMapped flags pages m

  -- Pages that have the flags keep them.
  abbrev Keeps : Flags → Memory T → Memory T → Type 0
  Keeps flags m m' = (q : ℕ) → flags_of m.table q ≡ some flags → flags_of m'.table q ≡ some flags

  AllMapped-Keeps :
      (flags : Flags) (pages : List ℕ) (m m' : Memory T)
      → Keeps flags m m'
      → AllMapped flags pages m
      → AllMapped flags pages m'
  AllMapped-Keeps flags [] m m' k h = tt
  AllMapped-Keeps flags (p ∷ ps) m m' k (h, hs) = (k p h, AllMapped-Keeps flags ps m m' k hs)

  AllMapped-append :
      (flags : Flags) (ps qs : List ℕ) (m : Memory T)
      → AllMapped flags ps m
      → AllMapped flags qs m
      → AllMapped flags (ps ++ qs) m
  AllMapped-append flags [] qs m h k = k
  AllMapped-append flags (p ∷ ps) qs m (h, hs) k = (h, AllMapped-append flags ps qs m hs k)

  map_to-Keeps :
      (page frame : ℕ) (flags : Flags) (m m' : Memory T) (t : T)
      → m.table ≡ t
      → map_to page flags frame m ≡ some m'
      → (flags_of m'.table page ≡ some flags)
        × ((q : ℕ) → flags_of t q ≡ some flags → flags_of m'.table q ≡ some flags)
  map_to-Keeps page frame flags m m' t same run =
      let sets = M.map_sets page flags frame m m' run in
      (
        sets,
        λ q h. elim (ℕ_discrete page q) [
          | yes e ↦ ap (flags_of m'.table) (sym e) ∙ sets
          | no ne ↦ M.map_keeps page flags frame m m' q run ne ∙ ap (λ u. flags_of u q) same ∙ h
        ],
      )

  map_ram_user-maps :
      (page : ℕ) (m : Memory T) (r : ℕ × Memory T)
      → map_ram_user map_to page heap_flags m ≡ ok r
      → (flags_of r.1.table page ≡ some user_heap_flags) × Keeps user_heap_flags m r.1
  unfolding map_ram_user map_frame
  map_ram_user-maps page m r h =
      let (in_range, h1) = ass_inv (leb user_start page && ltb page user_end) _ r h in
      let (allocated, run, h2) = bind_inv (allocate_frame m.frames) _ r h1 in
      let (frame, got, h3) = unwrap_inv allocated.0 _ r h2 in
      let before : Memory T = record m { frames = allocated.1 } in
      let (m', mapped, h4) = unwrap_inv (map_to page user_heap_flags frame before) _ r h3 in
      let e : m' ≡ r.1 = ap (λ (x : ℕ × Memory T). x.1) (ok_injective _ _ h4) in
      subst
        (λ (x : Memory T).
          (flags_of x.table page ≡ some user_heap_flags) × Keeps user_heap_flags m x)
        e (map_to-Keeps page frame user_heap_flags before m' m.table refl mapped)

  map_user_pages-maps :
      (pages : List ℕ) (m m' : Memory T)
      → map_user_pages pages m ≡ ok m'
      → AllMapped user_heap_flags pages m' × Keeps user_heap_flags m m'
  unfolding map_user_pages
  map_user_pages-maps [] m m' h =
      let e = ok_injective m m' h in
      (tt, λ q k. ap (λ (x : Memory T). flags_of x.table q) (sym e) ∙ k)
  map_user_pages-maps (page ∷ pages) m m' h =
      let (r, run, h1) = bind_inv (map_ram_user map_to page heap_flags m) _ m' h in
      let (here, keeps) = map_ram_user-maps page m r run in
      let (rest, keeps') = map_user_pages-maps pages r.1 m' h1 in
      ((keeps' page here, rest), λ q k. keeps' q (keeps q k))

  module _ (al : Align) (buddy : Buddy) where
    -- The closure of `create_user_heap`, which is called when a block is asked for that the heap does not have.
    unfoldable pub rescue_user :
        Layout → Grown al buddy → Memory T → Checked (Grown al buddy × Memory T)
    rescue_user layout g m = do
      g' ← grow_user_heap al buddy layout g
      m' ← map_user_pages (drop (length g.mapped) g'.mapped) m
      ok (g', m')

    -- That of `INNER_KERNEL_ALLOC`.
    unfoldable pub rescue_kernel :
        Layout → Grown al buddy → Memory T → Checked (Grown al buddy × Memory T)
    rescue_kernel layout g m = do
      g' ← grow_kernel_heap al buddy layout g
      m' ← map_kernel_pages (drop (length g.mapped) g'.mapped) m
      ok (g', m')

    -- The heap's pages are those that its bytes fill, from the base on, and all of them are mapped for the user, to be
    -- written and not executed.
    abbrev pub IsBacked : Grown al buddy → Memory T → Type 0
    IsBacked g m = IsHeap al buddy user_heap_start g × AllMapped user_heap_flags g.mapped m

    -- A user heap of at most 2^38 bytes stays backed whenever it grows for a layout of at most 2^38 bytes and an
    -- alignment of at most 2^38: if the new pages could be mapped, the heap reaches past the block, and all its pages,
    -- the old ones too, are mapped as they must be.
    pub rescue_user-IsBacked :
        (k size : ℕ) (g : Grown al buddy) (m : Memory T) (r : Grown al buddy × Memory T)
        → IsBacked g m
        → buddy.stats_total_bytes g.heap ≤ 2 ^ 38
        → size ≤ 2 ^ 38
        → 2 ^ k ≤ 2 ^ 38
        → rescue_user (record { size = size; align = 2 ^ k }) g m ≡ ok r
        → IsBacked r.0 r.1
          × (al.align_up (buddy.stats_total_bytes g.heap) (2 ^ k) + size
              ≤ buddy.stats_total_bytes r.0.heap)
    unfolding rescue_user grow_user_heap user_heap_start
    rescue_user-IsBacked k size g m r (heap, mapped) h hs hk run =
        let layout : Layout = record { size = size; align = 2 ^ k } in
        let (g', grown, run1) = bind_inv (grow_user_heap al buddy layout g) _ r run in
        let (m', maps, e) =
          bind_inv (map_user_pages (drop (length g.mapped) g'.mapped) m) _ r run1 in
        let (g'', grown', (heap', room, (new, more))) =
          grow-IsHeap al buddy user_heap_start k size g heap (omega arith) (omega arith) h hs hk in
        let same : g'' ≡ g' = ok_injective g'' g' (sym grown' ∙ grown) in
        let more' : g'.mapped ≡ g.mapped ++ new =
          ap (λ (x : Grown al buddy). x.mapped) (sym same) ∙ more in
        let news : drop (length g.mapped) g'.mapped ≡ new =
          ap (λ (l : List ℕ). drop (length g.mapped) l) more'
          ∙ drop-append (length g.mapped) g.mapped new refl in
        let (fresh, keeps) = map_user_pages-maps new m m' (rw (← news) maps) in
        let all : AllMapped user_heap_flags g'.mapped m' = rw more' (
          AllMapped-append user_heap_flags g.mapped new m'
            (AllMapped-Keeps user_heap_flags g.mapped m m' keeps mapped) fresh) in
        subst
          (λ (x : Grown al buddy × Memory T).
            IsBacked x.0 x.1
            × (al.align_up (buddy.stats_total_bytes g.heap) (2 ^ k) + size
                ≤ buddy.stats_total_bytes x.0.heap))
          (ok_injective _ _ e)
          (
            (subst (λ x. IsHeap al buddy user_heap_start x) same heap', all),
            subst
                (λ (x : Grown al buddy).
                  al.align_up (buddy.stats_total_bytes g.heap) (2 ^ k) + size
                  ≤ buddy.stats_total_bytes x.heap)
                same room,
          )
