-- ===== src/Block.antt =====
-- src/block.rs: decoded blocks and columns.
pub mod ColumnLayout
pub mod Column
pub mod Decoded
