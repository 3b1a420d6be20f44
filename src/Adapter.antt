-- ===== src/Adapter.antt =====
-- nns_adapter/src: the certified adapter from the legacy ICP ledger history to ICRC-3 blocks.
pub mod Legacy
pub mod Values
pub mod Keys
pub mod State
pub mod Hints
pub mod Translation
pub mod Fetch
pub mod Calls
pub mod Audit
mod Toy
mod Tests
