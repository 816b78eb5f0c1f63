-- ===== src/Interrupts.antt =====
-- kernel/src/interrupts.rs: the two old interrupt controllers, the handlers, and the tables of the other cores.
pub mod Controllers
pub mod Vectors
mod Examples
use steelmind_os.Base.{
  ◌>>=◌, ℕ, ◌-◌, ◌==◌, ltb, if◌then◌else◌, Option, none, some, List, [], ◌∷◌, Checked, ok, panic,
}
use steelmind_os.Base.Ports.{Io, port_write, ◌>>◌}
use steelmind_os.Constants.{max_cores}
use steelmind_os.Apic.Registers.{signal_end_of_interrupt}
use steelmind_os.Smp.Local.{Cells, get_cld}

unfoldable pub remap_and_disable_pic : (offset1 offset2 : ℕ) → Io (Unit {0})
remap_and_disable_pic offset1 offset2 =
    port_write 0x20 0x11
    >> port_write 0x80 0
    >> port_write 0xA0 0x11
    >> port_write 0x80 0
    >> port_write 0x21 offset1
    >> port_write 0x80 0
    >> port_write 0xA1 offset2
    >> port_write 0x80 0
    >> port_write 0x21 4
    >> port_write 0x80 0
    >> port_write 0xA1 2
    >> port_write 0x80 0
    >> port_write 0x21 0x01
    >> port_write 0x80 0
    >> port_write 0xA1 0x01
    >> port_write 0x80 0
    >> port_write 0x21 0xff
    >> port_write 0xA1 0xff

-- `AP_GDT` has an entry for each core but the first: the number of the entry that a core loads. With it go
-- its task state and the stack for double faults; an index beyond the end panics.
unfoldable pub init_gdt_and_exceptions_ap : (ap_index : ℕ) → Checked ℕ
init_gdt_and_exceptions_ap ap_index = if ltb ap_index (max_cores - 1) then ok ap_index else panic

-- The functions that `IDT` refers to. Those of the macros panic with a report; `interrupt_handler_ec` takes an
-- error code.
pub data Handler : Type 0 where
  interrupt_handler interrupt_handler_ec : Handler
  page_fault_handler timer_interrupt breakpoint_handler : Handler
  double_fault_handler : (stack_index : ℕ) → Handler

-- The entries that are set, with the vectors of the crate's names for them.
abbrev pub entries : List (ℕ × Handler)
entries =
    (17, interrupt_handler_ec)
    ∷  -- `alignment_check`
        (5, interrupt_handler)
    ∷  -- `bound_range_exceeded`
        (21, interrupt_handler_ec)
    ∷  -- `cp_protection_exception`
        (7, interrupt_handler)
    ∷  -- `device_not_available`
        (0, interrupt_handler)
    ∷  -- `divide_error`
        (13, interrupt_handler_ec)
    ∷  -- `general_protection_fault`
        (28, interrupt_handler)
    ∷  -- `hv_injection_exception`
        (6, interrupt_handler)
    ∷  -- `invalid_opcode`
        (10, interrupt_handler_ec)
    ∷  -- `invalid_tss`
        (2, interrupt_handler)
    ∷  -- `non_maskable_interrupt`
        (4, interrupt_handler)
    ∷  -- `overflow`
        (30, interrupt_handler_ec)
    ∷  -- `security_exception`
        (11, interrupt_handler_ec)
    ∷  -- `segment_not_present`
        (19, interrupt_handler)
    ∷  -- `simd_floating_point`
        (12, interrupt_handler_ec)
    ∷  -- `stack_segment_fault`
        (20, interrupt_handler)
    ∷  -- `virtualization`
        (29, interrupt_handler_ec)
    ∷  -- `vmm_communication_exception`
        (16, interrupt_handler)
    ∷  -- `x87_floating_point`
        (14, page_fault_handler)
    ∷ (8, double_fault_handler 0)
    ∷ (32, timer_interrupt)
    ∷ (3, breakpoint_handler)
    ∷ []

lookup : ℕ → List (ℕ × Handler) → Option Handler
lookup v [] = none
lookup v ((n, h) ∷ rest) = if v == n then some h else lookup v rest

unfoldable pub idt : (vector : ℕ) → Option Handler
unfolding lookup
idt vector = lookup vector entries

-- The handler of the timer, on a core with the given local APIC; `call` runs a callback.
unfoldable pub handle_timer :
    {A F S : Type 0} (call : F → Io (Unit {0})) (apic_id apic : ℕ)
    → Cells A F S
    → Checked (Io (Unit {0}))
unfolding get_cld
handle_timer call apic_id apic cells = do
  cld ← get_cld apic_id cells
  ok (elim cld.apic_timer_interrupt_function [
    | some callback ↦ call callback >> signal_end_of_interrupt apic
    | none ↦ signal_end_of_interrupt apic
  ])
