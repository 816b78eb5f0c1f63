-- ===== src/Allocator/Examples.antt =====
-- The theorem on the heaps at a buddy allocator that only counts.
use steelmind_os.Base.{
  ℕ, ◌+◌, ◌-◌, ◌*◌, none, some, ◌≤◌, ◌^◌, ◌≡◌, refl, arith, List, [], ◌∷◌, ◌++◌, ok, Returns,
}
use steelmind_os.Base.Address.Concrete.{concrete, up, down}
use steelmind_os.Allocator.{
  Buddy, Grown, grow, grow_user_heap, added_size, next_power_of_two, power_from, pages_from,
}
use steelmind_os.Constants.{user_start, user_end, user_heap_start}
use steelmind_os.Memory.Frames.{allocate_frame}
use steelmind_os.Memory.Mapping.{Memory, map_ram_user, map_frame}
use steelmind_os.Loader.Segments.Sample.{Table, mapper}
use steelmind_os.Allocator.Backing.{IsBacked, map_user_pages, rescue_user, rescue_user-IsBacked}
use steelmind_os.Allocator.Growth.{IsHeap, grow-IsHeap}

abbrev counter : Buddy
counter = record {
  Heap = ℕ;
  stats_total_bytes = λ h. h;
  add_to_heap = λ start end h. h + (end - start);
  total_of_added = λ start end h le. refl;
}

abbrev empty : Grown concrete counter
empty = record { heap = 0; mapped = [] }

grow-IsHeap_example :
    Returns
      (λ g'.
        IsHeap concrete counter 0x1_0000_0000 g'
        × (concrete.align_up 0 (2 ^ 4) + 5000 ≤ g'.heap)
        × ((new : List ℕ) × (g'.mapped ≡ [] ++ new)))
      (grow concrete counter 0x1_0000_0000 (record { size = 5000; align = 2 ^ 4 }) empty)
unfolding pages_from
grow-IsHeap_example =
    grow-IsHeap concrete counter 0x1_0000_0000 4 5000 empty (refl, refl) refl (omega arith)
      (omega arith) (omega arith) (omega arith)

-- The first 100 bytes: a page.
first_block :
    grow concrete counter 0x1_0000_0000 (record { size = 100; align = 8 }) empty
    ≡ ok (record { heap = 4096; mapped = 0x1_0000_0000 ∷ [] })
unfolding grow added_size next_power_of_two power_from up down pages_from
first_block = refl

abbrev frames : Memory Table
frames = record {
  table = λ page. none;
  frames = record {
    alloc = record { free_memory_head = some 2; total_frames = 9; free_frames = 9 };
    ram = λ a. record { next = some (a + 1); frame = a * 4096 };
  };
}

rescued :
    (r : Grown concrete counter × Memory Table) × (rescue_user mapper concrete counter
        (record { size = 5000; align = 2 ^ 4 })
        empty
        frames
      ≡ ok r)
unfolding rescue_user map_user_pages map_ram_user map_frame mapper allocate_frame user_start
    user_end grow_user_heap grow added_size next_power_of_two power_from up down pages_from
    user_heap_start
rescued = (_, refl)

rescue_user-IsBacked_example :
    IsBacked mapper concrete counter rescued.0.0 rescued.0.1
    × (concrete.align_up 0 (2 ^ 4) + 5000 ≤ rescued.0.0.heap)
unfolding pages_from
rescue_user-IsBacked_example =
    rescue_user-IsBacked mapper concrete counter 4 5000 empty frames rescued.0 ((refl, refl), tt)
      (omega arith) (omega arith) (omega arith) rescued.1
