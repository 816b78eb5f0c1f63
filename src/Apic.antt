-- ===== src/Apic.antt =====
-- kernel/src/apic.rs: the local APIC, its timer and the commands to the other cores.
pub mod Registers
pub mod Start
pub mod Commands
pub mod Timing
mod Examples
