-- ===== src/Io.antt =====
-- src/io.rs: the transport over a byte slice, read deadlines and cancellation.
pub mod Slice
pub mod Deadline
pub mod Cancel
