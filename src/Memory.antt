-- ===== src/Memory.antt =====
-- kernel/src/memory.rs: physical frames and page tables.
pub mod Frames
pub mod Mapping
pub mod Tables
pub mod FrameBuffer
mod Examples
