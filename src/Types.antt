-- ===== src/Types.antt =====
-- src/types.rs: type kinds, interval units and the views of a parsed type.
pub mod Kind
pub mod IntervalUnit
pub mod Variants
pub mod View
