-- ===== src/RamDisk.antt =====
-- The RAM disk: bootimage/src/main.rs writes it, kernel/src/ram_disk.rs reads it.
-- `Bytes` has the little-endian words, `Image` the writer, `Reader` the kernel's side; `Layout`
-- describes a disk by its files, and `RoundTrip` joins the two sides.
pub mod Bytes
pub mod Image
pub mod Reader
pub mod Layout
pub mod RoundTrip
mod Examples
