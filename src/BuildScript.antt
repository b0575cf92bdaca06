-- ===== src/BuildScript.antt =====
-- The build script (build.rs).
pub mod Text
pub mod Comments
pub mod CInteger
pub mod Enums
pub mod Declarations
pub mod Emit
pub mod Inventory
pub mod Sorted
pub mod Orders
pub mod Script
