-- ===== src/Terminal.antt =====
-- kernel/src/terminal_out.rs: windows on the frame buffer, and the text terminal that draws in one.
pub mod Color
pub mod Window
pub mod Writer
pub mod Isolation
pub mod Buffer
pub mod Pixels
pub mod Stdout
mod Examples
