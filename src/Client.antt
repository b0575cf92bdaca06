-- ===== src/Client.antt =====
-- src/client.rs: the blocking client.
pub mod PacketKind
pub mod Event
pub mod Opts
pub mod Calls
pub mod Payloads
