-- ===== src/Memory/Frames.antt =====
-- `BootInfoFrameAllocator` of kernel/src/memory.rs. The free frames form a linked list whose nodes
-- lie in the free frames themselves; memory is reached through the mapping of all physical memory
-- at `phys.offset`. Addresses of nodes are virtual, frames are named by their physical start address.
pub mod Pool
pub mod Init
pub mod Startup
mod Ranges
pub mod History
mod Examples
use steelmind_os.Base.Address.{PhysicalMemory, Reachable, phys_addr, virt_add, virt_add-ok}
use steelmind_os.Base.{
  ℕ, ◌+◌, ◌-◌, Option, none, some, refl, ◌≡◌, ◌==◌, if◌then◌else◌, Checked, ok, ◌>>=◌, add64, sub64,
}

pub record FreeNode : Type 0 where
  pub next : Option ℕ
  pub frame : ℕ

-- What the memory holds at a virtual address, read as a node.
abbrev pub Ram : Type 0
Ram = ℕ → FreeNode

abbrev pub write : Ram → ℕ → FreeNode → Ram
write m p n q = if q == p then n else m q

pub record FrameAllocator : Type 0 where
  pub free_memory_head : Option ℕ
  pub total_frames : ℕ
  pub free_frames : ℕ

-- The two parts of the state: the allocator and the memory that it shares with everybody.
pub record State : Type 0 where
  pub alloc : FrameAllocator
  pub ram : Ram

unfoldable pub allocate_frame : State → Checked (Option ℕ × State)
allocate_frame s = elim s.alloc.free_memory_head [
  | none ↦ ok (none, s)
  | some node ↦ do
    left ← sub64 s.alloc.free_frames 1
    ok (
      some (s.ram node).frame,
      record s {
        alloc = record {
          free_memory_head = (s.ram node).next;
          total_frames = s.alloc.total_frames;
          free_frames = left;
        };
      },
    )
]

-- (used, total)
unfoldable pub get_memory_utilization : FrameAllocator → Checked (ℕ × ℕ)
get_memory_utilization a = do used ← sub64 a.total_frames a.free_frames; ok (used, a.total_frames)

module _ (phys : PhysicalMemory) where
  abbrev pub phys_to_virt : ℕ → Checked ℕ
  phys_to_virt a = virt_add phys phys.offset a

  unfoldable pub phys_addr_to_node_ref : ℕ → Checked ℕ
  phys_addr_to_node_ref addr = do a ← phys_addr phys addr; phys_to_virt a

  pub node_ref-ok : (a : ℕ) → Reachable phys a → phys_addr_to_node_ref a ≡ ok (phys.offset + a)
  unfolding phys_addr_to_node_ref
  node_ref-ok a r = rw (r.physical, virt_add-ok phys a r) refl

  unfoldable pub deallocate_frame : State → ℕ → Checked State
  deallocate_frame s frame = do
    node ← phys_addr_to_node_ref frame
    let m = write s.ram node (record { next = s.alloc.free_memory_head; frame = frame })
    more ← add64 s.alloc.free_frames 1
    ok (record {
      alloc = record {
        free_memory_head = some node;
        total_frames = s.alloc.total_frames;
        free_frames = more;
      };
      ram = m;
    })
