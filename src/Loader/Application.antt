-- ===== src/Loader/Application.antt =====
-- kernel/src/loader.rs: an application is prepared in an address space of its own, is run there and is freed;
-- and the test of it in kernel/src/common_main.rs. Each address space is the level 4 table in a frame
-- with a user's half: the tables below that entry, and the bytes that a core sees in it.
pub mod Stack
pub mod Spaces
pub mod Calls
pub mod Test
mod Examples
use steelmind_os.Base.Address.{PhysicalMemory}
use steelmind_os.Base.{
  ℕ, ◌+◌, ◌-◌, ◌==◌, if◌then◌else◌, Option, Checked, ok, panic, ◌>>=◌, ◌>>◌, ass, put,
}
use steelmind_os.Memory.Mapping.{Memory}
use steelmind_os.Memory.Tables.{Paging, create_new_l4_page_table, switch_l4_page_table}
use steelmind_os.Loader.{allocate_stack}
use steelmind_os.Loader.Segments.{Mapper, Space, Elf, load}

pub record User (T : Type 0) : Type 0 where
  pub table : T
  pub bytes : ℕ → ℕ

-- `spaces` is by the frame of the level 4 table. `kernel_page_table` is the address of the kernel's.
pub record Machine (T : Type 0) : Type 0 where
  pub paging : Paging
  pub spaces : ℕ → User T
  pub kernel_page_table : ℕ

-- `H` is the heap, from the crate `buddy_system_allocator`; a new one is empty and asks for memory when it is used.
pub record ApplicationResources (H : Type 0) : Type 0 where
  pub l4_page_table : ℕ
  pub entry_point_virt_addr : ℕ
  pub heap : H

-- What the core sees, and the same after a change.
abbrev pub active : {T : Type 0} → Machine T → Space T
active m =
    let user = m.spaces m.paging.cr3 in
    record { memory = record { table = user.table; frames = m.paging.frames }; bytes = user.bytes }

abbrev pub with_active : {T : Type 0} → Space T → Machine T → Machine T
with_active s m = record m {
  paging = record m.paging { frames = s.memory.frames };
  spaces = put m.spaces m.paging.cr3 (record { table = s.memory.table; bytes = s.bytes });
}

module _ {T : Type 0} (phys : PhysicalMemory) where
  -- The new table has no entry in the user's half.
  unfoldable pub create_user_page_table : (unused : User T) → Machine T → Checked (ℕ × Machine T)
  create_user_page_table unused m = do
    (table, paging) ← create_new_l4_page_table phys m.paging
    ok (table, record m { paging = paging; spaces = put m.spaces (table - phys.offset) unused })

  unfoldable pub switch_to_user_page_table : (user_page_table : ℕ) → Machine T → Checked (Machine T)
  switch_to_user_page_table user_page_table m = do
    paging ← switch_l4_page_table phys user_page_table m.paging
    ok (record m { paging = paging })

  unfoldable pub switch_to_kernel_page_table : Machine T → Checked (Machine T)
  switch_to_kernel_page_table m = do
    paging ← switch_l4_page_table phys m.kernel_page_table m.paging
    ok (record m { paging = paging })

  -- `Drop for ApplicationResources`: freeing what the application holds is still to be written.
  unfoldable pub free_application :
      {H : Type 0} → ApplicationResources H → Machine T → Checked (Machine T)
  free_application resources m = do
    user ← switch_to_user_page_table resources.l4_page_table m
    switch_to_kernel_page_table user

-- `unused` is the user's half of a new address space.
module _ {T H : Type 0} (M : Mapper T) (held : (frame offset : ℕ) → ℕ) (phys : PhysicalMemory)
    (unused : User T) (new_heap : H) where
  -- What a page of the stack holds when it is mapped is left out: nobody has written to it.
  unfoldable pub prepare_application :
      (file : Option Elf) → Machine T → Checked (ApplicationResources H × Machine T)
  prepare_application file m = do
    (l4_page_table, created) ← create_user_page_table phys unused m
    user ← switch_to_user_page_table phys l4_page_table created
    (entry_point, loaded) ← load M held file (active user)
    memory ← allocate_stack M.map_to loaded.memory
    kernel ← switch_to_kernel_page_table phys (with_active (record loaded { memory = memory }) user)
    ok (
      record {
        l4_page_table = l4_page_table;
        entry_point_virt_addr = entry_point;
        heap = new_heap;
      },
      kernel,
    )

  -- The application, from its entry until it returns or aborts: what `switch_stack_and_execute` makes of it is in
  -- Loader/Switch.
  module _ (execute : (entry_point : ℕ) → Space T → Checked (ℕ × Space T)) where
    unfoldable pub run : ApplicationResources H → Machine T → Checked (ℕ × Machine T)
    run resources m = do
      user ← switch_to_user_page_table phys resources.l4_page_table m
      (ret, after) ← execute resources.entry_point_virt_addr (active user)
      kernel ← switch_to_kernel_page_table phys (with_active after user)
      ok (ret, kernel)

    -- `file` is the RAM disk's second.
    unfoldable pub app_test : (file : Option Elf) → Machine T → Checked (Machine T)
    app_test file m = do
      (resources_a, m1) ← prepare_application file m
      (resources_b, m2) ← prepare_application file m1
      (ret1, m3) ← run resources_a m2
      ass (ret1 == 0)
      (ret2, m4) ← run resources_b m3
      ass (ret2 == 0)
      (ret3, m5) ← run resources_a m4
      ass (ret3 == 42)
      ok m5
