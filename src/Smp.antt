-- ===== src/Smp.antt =====
-- kernel/src/smp.rs: the stacks of the other cores; and, from kernel/smp_trampoline/ap.asm, where each of
-- these cores puts its stack pointer.
pub mod Stacks
pub mod Local
pub mod Startup
mod Examples
use steelmind_os.Base.{
  ℕ, zero, suc, ◌+◌, ◌-◌, ◌*◌, ◌/◌, Bool, true, false, Option, Checked, ok, ◌>>=◌,
}
use steelmind_os.Base.Address.{Align}
use steelmind_os.Constants.{kernel_stack_size, kernel_ap_stacks}
use steelmind_os.Memory.Mapping.{Flags, Memory, map_ram_kernel}

-- `align_up(KERNEL_STACK_SIZE, 4096) / 4096`.
unfoldable pub pages_per_core : Align → ℕ
pages_per_core al = al.align_up kernel_stack_size 4096 / 4096

unfoldable pub calc_stack_stride : Align → ℕ
unfolding pages_per_core
calc_stack_stride al = (pages_per_core al + 1) * 4096

-- In `init_smp`.
unfoldable pub stack_base : Align → ℕ
stack_base al = kernel_ap_stacks + calc_stack_stride al - 1

-- The end of `setup` in the trampoline: `imul rbp, [STACK_STRIDE]`, `add rbp, [STACK_BASE_ADDR]`.
unfoldable pub stack_pointer : Align → (index : ℕ) → ℕ
stack_pointer al i = i * calc_stack_stride al + stack_base al

abbrev pub stack_flags : Flags
stack_flags = record {
  present = false;
  writable = true;
  user_accessible = false;
  no_execute = true;
}

module _ {T : Type 0}
    (map_to : (page : ℕ) → Flags → (frame : ℕ) → Memory T → Option (Memory T)) where
  -- The inner loop. The sums stay below 2^64: `map_ram_kernel` panics at the end of the kernel's range.
  unfoldable pub map_stack : (pages virt_addr : ℕ) → Memory T → Checked (ℕ × Memory T)
  map_stack zero virt_addr mem = ok (virt_addr, mem)
  map_stack (suc pages) virt_addr mem = do
    (frame, mem') ← map_ram_kernel map_to virt_addr stack_flags mem
    map_stack pages (virt_addr + 4096) mem'

  -- The outer loop, with a guard page below each stack.
  unfoldable pub map_stacks : (pages cores virt_addr : ℕ) → Memory T → Checked (Memory T)
  map_stacks pages zero virt_addr mem = ok mem
  map_stacks pages (suc cores) virt_addr mem = do
    (virt_addr', mem') ← map_stack pages (virt_addr + 4096) mem
    map_stacks pages cores virt_addr' mem'

  unfoldable pub allocate_stacks : Align → (ap_core_count : ℕ) → Memory T → Checked (Memory T)
  allocate_stacks al ap_core_count mem =
      map_stacks (pages_per_core al) ap_core_count kernel_ap_stacks mem
