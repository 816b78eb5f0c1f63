-- ===== src/Smp/Examples.antt =====
-- The theorems on the stacks of three cores.
use steelmind_os.Base.{ℕ, ◌≡◌, Option, none}
use steelmind_os.Base.Address.Concrete.{concrete}
use steelmind_os.Constants.{kernel_ap_stacks}
use steelmind_os.Memory.Mapping.{Flags, Memory}
use steelmind_os.Smp.{allocate_stacks}
use steelmind_os.Smp.Stacks.{stack_pages, map_all, allocate_stacks-pages}

abbrev refuse : (page : ℕ) → Flags → (frame : ℕ) → Memory ℕ → Option (Memory ℕ)
refuse page flags frame m = none

abbrev empty : Memory ℕ
empty = record {
  table = 0;
  frames = record {
    alloc = record { free_memory_head = none; total_frames = 0; free_frames = 0 };
    ram = λ a. record { next = none; frame = 0 };
  };
}

allocate_stacks-pages_example :
    allocate_stacks refuse concrete 3 empty
    ≡ map_all refuse (stack_pages 1024 3 kernel_ap_stacks) empty
allocate_stacks-pages_example = allocate_stacks-pages refuse concrete 3 empty
