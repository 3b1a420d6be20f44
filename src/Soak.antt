-- ===== src/Soak.antt =====
-- soak/src: the reference model of the ledger, the replayer, the wallet's scan and the private retrieval.
pub mod Wire
pub mod Sets
pub mod Model
pub mod Replay
pub mod Scan
pub mod Pir
mod Toy
mod Tests
