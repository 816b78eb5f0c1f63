-- ===== src/Allocator.antt =====
-- kernel/src/allocator.rs: how the kernel heap and a user heap grow when the buddy allocator has
-- no block left.
pub mod Power
pub mod Growth
pub mod Backing
mod Examples
use steelmind_os.Base.{
  ℕ, zero, suc, ◌+◌, ◌-◌, ◌*◌, ◌/◌, ◌≤◌, ◌<◌, max, ◌≡◌, List, [], ◌∷◌, ◌++◌, leb, if◌then◌else◌,
  Checked, ok, panic, ◌>>=◌, add64, sub64, mul64,
}
use steelmind_os.Base.Address.{Align}
use steelmind_os.Constants.{kernel_heap_start, user_heap_start}

-- What the closures rely on of the crate `buddy_system_allocator`: the counter of the bytes given
-- to the heap.
pub record Buddy : Type 1 where
  pub Heap : Type 0
  pub stats_total_bytes : Heap → ℕ
  pub add_to_heap : (start end : ℕ) → Heap → Heap
  pub total_of_added :
      (start end : ℕ) (h : Heap)
      → start ≤ end
      → stats_total_bytes (add_to_heap start end h) ≡ stats_total_bytes h + (end - start)

pub record Layout : Type 0 where
  pub size : ℕ
  pub align : ℕ

-- `u64::next_power_of_two`, which is an overflow above 2^63: the powers from `p` on are tried.
unfoldable pub power_from : ℕ → ℕ → ℕ → Checked ℕ
power_from zero p n = panic
power_from (suc tries) p n = if leb n p then ok p else power_from tries (2 * p) n

unfoldable pub next_power_of_two : ℕ → Checked ℕ
next_power_of_two n = power_from 64 1 n

-- `Page::range_inclusive`: the pages from address `page` on.
unfoldable pub pages_from : ℕ → ℕ → List ℕ
pages_from zero page = []
pages_from (suc count) page = page ∷ pages_from count (page + 4096)

module _ (al : Align) where
  -- `new_added_size`.
  unfoldable pub added_size : ℕ → Layout → Checked ℕ
  added_size old_size layout = do
    padding ← sub64 (al.align_up old_size layout.align) old_size
    needed ← add64 padding layout.size
    min_size_to_add ← next_power_of_two needed
    sum ← add64 min_size_to_add old_size
    power ← next_power_of_two sum
    double ← mul64 min_size_to_add 2
    sub64 (max power double) old_size

  module _ (buddy : Buddy) where
    -- The heap, and the pages that were mapped for it, in order.
    pub record Grown : Type 0 where
      pub heap : buddy.Heap
      pub mapped : List ℕ

    -- The closure given to `LockedHeapWithRescue::new`, for a heap at `base`.
    unfoldable pub grow : ℕ → Layout → Grown → Checked Grown
    grow base layout g = do
      new_added_size ← added_size (buddy.stats_total_bytes g.heap) layout
      start ← add64 base (buddy.stats_total_bytes g.heap)
      mapping_end ← add64 start new_added_size
      mapping_last ← sub64 mapping_end 1
      let start_addr = al.align_down start 4096
      let last_page = al.align_down mapping_last 4096
      let count = (last_page - start_addr) / 4096 + 1
      end_addr ← add64 last_page 4096
      ok record {
        heap = buddy.add_to_heap start_addr end_addr g.heap;
        mapped = g.mapped ++ pages_from count start_addr;
      }

    unfoldable pub grow_kernel_heap : Layout → Grown → Checked Grown
    unfolding grow
    grow_kernel_heap layout g = grow kernel_heap_start layout g

    unfoldable pub grow_user_heap : Layout → Grown → Checked Grown
    unfolding grow
    grow_user_heap layout g = grow user_heap_start layout g
