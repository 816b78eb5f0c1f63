-- ===== src/Memory/Mapping.antt =====
-- kernel/src/memory.rs: frames from the allocator behind pages of the active page table.
use steelmind_os.Base.Address.{PhysicalMemory}
use steelmind_os.Base.{ℕ, Bool, true, ◌&&◌, leb, ltb, Option, Checked, ok, ◌>>=◌, ◌>>◌, ass, unwrap}
use steelmind_os.Constants.{kernel_start, kernel_end, user_start, user_end}
use steelmind_os.Memory.Frames.{State, allocate_frame, deallocate_frame}

pub record Flags : Type 0 where
  pub present : Bool
  pub writable : Bool
  pub user_accessible : Bool
  pub no_execute : Bool

pub record Memory (T : Type 0) : Type 0 where
  pub table : T
  pub frames : State

-- The crate `x86_64`: `map_to` maps a page to a frame, and may take frames from the allocator for new
-- tables; `none` is its error.
module _ {T : Type 0}
    (map_to : (page : ℕ) → Flags → (frame : ℕ) → Memory T → Option (Memory T)) where
  unfoldable pub map_frame : (page : ℕ) → Flags → (frame : ℕ) → Memory T → Checked (Memory T)
  map_frame page flags frame m = unwrap (map_to page flags frame m)

  unfoldable pub map_ram_kernel : (page : ℕ) → Flags → Memory T → Checked (ℕ × Memory T)
  map_ram_kernel page flags m = do
    ass (leb kernel_start page && ltb page kernel_end)
    (allocated, frames) ← allocate_frame m.frames
    frame ← unwrap allocated
    m' ← map_frame page (record flags { present = true }) frame (record m { frames = frames })
    ok (frame, m')

  unfoldable pub map_ram_user : (page : ℕ) → Flags → Memory T → Checked (ℕ × Memory T)
  map_ram_user page flags m = do
    ass (leb user_start page && ltb page user_end)
    (allocated, frames) ← allocate_frame m.frames
    frame ← unwrap allocated
    m' ←
        map_frame page (record flags { present = true; user_accessible = true }) frame
          (record m { frames = frames })
    ok (frame, m')

-- `unmap_page` is the crate's too: it removes a page and returns its frame.
module _ {T : Type 0} (unmap_page : (page : ℕ) → T → Option (ℕ × T)) where
  unfoldable pub unmap : (page : ℕ) → Memory T → Checked (ℕ × Memory T)
  unmap page m = do
    (frame, table) ← unwrap (unmap_page page m.table)
    ok (frame, record m { table = table })

  unfoldable pub unmap_ram : (phys : PhysicalMemory) (page : ℕ) → Memory T → Checked (Memory T)
  unmap_ram phys page m = do
    (frame, m') ← unmap page m
    frames ← deallocate_frame phys m'.frames frame
    ok (record m' { frames = frames })
