-- ===== src/KernelMain.antt =====
-- kernel/src/main.rs and kernel/src/acpi.rs: what is checked of the boot loader's information, and what is read
-- of the description of the machine.
pub mod Checks
mod Examples
use steelmind_os.Base.{
  ℕ, suc, ◌+◌, ◌==◌, ltb, if◌then◌else◌, Bool, true, false, not, ◌&&◌, Option, none, some, List, [],
  ◌∷◌, Checked, ok, panic, ◌>>=◌, ◌>>◌, ass, unwrap,
}
use steelmind_os.Constants.{kernel_dynamic_start, kernel_dynamic_end}
use steelmind_os.RamDisk.Image.{Hasher}
use steelmind_os.RamDisk.Reader.{assert_soundness}
use steelmind_os.RamDisk.Reader

-- The frame buffer: the address and the length of its bytes, and the length in its description.
pub record FrameBuffer : Type 0 where
  pub start : ℕ
  pub len : ℕ
  pub byte_len : ℕ

-- The boot loader's information; the part about the RAM disk is that of RamDisk/Reader.
pub record BootInfo : Type 0 where
  pub physical_memory_offset : Option ℕ
  pub framebuffer : Option FrameBuffer
  pub disk : Reader.BootInfo

abbrev pub unwrap_or : Option ℕ → ℕ → ℕ
unwrap_or none d = d
unwrap_or (some a) d = a

unfoldable pub assert_boot_info : Hasher → BootInfo → Checked (Unit {0})
assert_boot_info H b = do
  expected ← unwrap b.physical_memory_offset
  fb ← unwrap b.framebuffer
  ass (fb.len == fb.byte_len)
  ass (ltb kernel_dynamic_start fb.start)
  ass (ltb kernel_dynamic_start (unwrap_or b.disk.ramdisk_addr 0))
  ass (ltb kernel_dynamic_start (unwrap_or b.physical_memory_offset 0))
  ass (ltb fb.start kernel_dynamic_end)
  ramdisk ← unwrap b.disk.ramdisk_addr
  ass (ltb ramdisk kernel_dynamic_end)
  offset ← unwrap b.physical_memory_offset
  ass (ltb offset kernel_dynamic_end)
  assert_soundness H b.disk

-- The crate `acpi`: the state of a processor, and an entry for one.
pub data ProcessorState : Type 0 where
  disabled waiting_for_sipi running : ProcessorState

pub record Processor : Type 0 where
  pub state : ProcessorState
  pub is_ap : Bool

-- The address of the local APIC, where the machine has one, and the entries of `application_processors`, where it
-- lists any.
pub record PlatformInfo : Type 0 where
  pub local_apic_address : Option ℕ
  pub application_processors : Option (List Processor)

pub record Acpi : Type 0 where
  pub local_apic_ptr : ℕ
  pub ap_count : ℕ

abbrev pub is_disabled : ProcessorState → Bool
is_disabled disabled = true
is_disabled waiting_for_sipi = false
is_disabled running = false

-- `filter(..).count()`
unfoldable pub count_aps : List Processor → ℕ
count_aps [] = 0
count_aps (e ∷ es) =
    if not (is_disabled e.state) && e.is_ap then suc (count_aps es) else count_aps es

-- `platform_info` is the result of the crate's call; `physical_memory_offset + local_apic_address` is not checked for an
-- overflow, which the addresses of a machine do not have.
unfoldable pub acpi_new :
    (physical_memory_offset : ℕ) → (platform_info : Option PlatformInfo) → Checked Acpi
unfolding count_aps
acpi_new physical_memory_offset platform_info = do
  info ← unwrap platform_info
  local_apic_address ← unwrap info.local_apic_address
  processors ← unwrap info.application_processors
  ok (record {
    local_apic_ptr = physical_memory_offset + local_apic_address;
    ap_count = count_aps processors;
  })
