-- ===== src/Adapter/Legacy.antt =====
-- nns_adapter/src/legacy.rs: legacy blocks, their protobuf form, and the conversions between them.
pub mod Messages
pub mod Accounts
pub mod Operations
pub mod Blocks
mod Tests
