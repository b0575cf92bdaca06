-- ===== src/Tests.antt =====
-- Concrete headers, C functions and transports, and the theorems at concrete inputs.
pub mod Fixtures
pub mod Async
pub mod Builder
mod Alloc
mod BuildScript
mod Connect
mod Constants
pub mod Headers
pub mod Errors
pub mod Client
mod Parity
mod Script
mod Session
mod Tls
mod Types
