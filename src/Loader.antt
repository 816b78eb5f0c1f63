-- ===== src/Loader.antt =====
-- kernel/src/loader.rs: how the segments of an application are protected, and its stack.
pub mod Protection
pub mod Cpu
pub mod Switch
pub mod Segments
pub mod Application
use steelmind_os.Base.{
  ℕ, zero, suc, ◌+◌, ◌-◌, ◌*◌, ◌/◌, Bool, true, false, not, ◌&&◌, ◌||◌, if◌then◌else◌, Option,
  bit_and, Checked, ok, ◌>>=◌, ◌>>◌, ass,
}
use steelmind_os.Base.Ports.{has}
use steelmind_os.Constants.{user_stack_start, user_stack_size}
use steelmind_os.Memory.Mapping.{Flags, Memory, map_ram_user}

-- The flags of the ELF format, from the crate `elf`.
abbrev pub pf_x : ℕ
pf_x = 1

abbrev pub pf_w : ℕ
pf_w = 2

abbrev pub pf_r : ℕ
pf_r = 4

-- In the loop of `load`: the flags that a segment's pages get.
unfoldable pub segment_flags : ℕ → Checked Flags
segment_flags raw_flags =
    let raw_flag_exec = has raw_flags pf_x in
    let raw_flag_write = has raw_flags pf_w in
    let raw_flag_read = has raw_flags pf_r in
    ass (raw_flag_read || raw_flag_exec)
    >> ok (record {
      present = false;
      writable = raw_flag_write;
      user_accessible = false;
      no_execute = not raw_flag_exec || raw_flag_write;
    })

-- What `map_segment` sets on a page at its end.
abbrev pub final_flags : Flags → Flags
final_flags flags = record flags { user_accessible = true; present = true }

abbrev pub stack_flags : Flags
stack_flags = record {
  present = false;
  writable = true;
  user_accessible = false;
  no_execute = true;
}

module _ {T : Type 0}
    (map_to : (page : ℕ) → Flags → (frame : ℕ) → Memory T → Option (Memory T)) where
  -- The loop of `allocate_stack`, from index `i` on.
  unfoldable pub map_stack : (rounds i : ℕ) → (base_virt_addr : ℕ) → Memory T → Checked (Memory T)
  map_stack zero i base_virt_addr mem = ok mem
  map_stack (suc rounds) i base_virt_addr mem = do
    (frame, mem') ← map_ram_user map_to (base_virt_addr + i * 4096) stack_flags mem
    map_stack rounds (i + 1) base_virt_addr mem'

  unfoldable pub allocate_stack : Memory T → Checked (Memory T)
  allocate_stack mem =
      let base_virt_addr = user_stack_start + 4096 in
      let page_count = user_stack_size / 4096 - 1 in map_stack page_count 0 base_virt_addr mem
