-- ===== src/Circuit.antt =====
-- circuit/common/src/lib.rs: hashing of notes, the commitment tree, and the two circuits.
pub mod Row
pub mod Hash
pub mod Field
pub mod Range
pub mod Membership
pub mod Transfer
pub mod Deposit
pub mod Tree
mod Tests
