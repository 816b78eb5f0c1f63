-- ===== src/Memory/Tables/Examples.antt =====
-- An active table at the frame 0x1000, and one free frame at 0x3000.
use steelmind_os.Base.Address.{PhysicalMemory, Reachable}
use steelmind_os.Base.Address.Concrete.{mapped_at, mapped_at-Reachable}
use steelmind_os.Base.{ℕ, ◌+◌, ◌<◌, ◌≡◌, refl, arith, ◌==◌, if◌then◌else◌, none, some, Returns}
use steelmind_os.Memory.Frames.{State, allocate_frame}
use steelmind_os.Memory.Tables.{
  Paging, Fresh, create_new_l4_page_table, create_new_l4_page_table-Fresh,
}

abbrev phys : PhysicalMemory
phys = mapped_at 0x3300_0000_0000

reached : (f : ℕ) → f < 0x10_0000 → Reachable phys f
reached f h = mapped_at-Reachable 0x3300_0000_0000 f (omega (arith, h))

abbrev free : State
free = record {
  alloc = record { free_memory_head = some 0x3000; total_frames = 1; free_frames = 1 };
  ram = λ a. record { next = none; frame = a };
}

abbrev used_up : State
used_up = record {
  alloc = record { free_memory_head = none; total_frames = 1; free_frames = 0 };
  ram = λ a. record { next = none; frame = a };
}

abbrev paging : Paging
paging = record {
  entries = λ t i. if t == phys.offset + 0x1000 then i + 3 else 9;
  cr3 = 0x1000;
  frames = free;
}

create_new_l4_page_table-Fresh_example :
    Returns
      (λ (r : ℕ × Paging).
        (r.0 ≡ phys.offset + 0x3000) × Fresh phys (phys.offset + 0x1000) r.0 paging r.1)
      (create_new_l4_page_table phys paging)
unfolding allocate_frame
create_new_l4_page_table-Fresh_example =
    create_new_l4_page_table-Fresh phys paging 0x3000 used_up refl (reached 0x1000 (omega arith))
      (reached 0x3000 (omega arith)) (λ e. omega (arith, e))
