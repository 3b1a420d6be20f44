-- ===== src/Ceremony.antt =====
-- ceremony/src: the trusted-setup ceremony of phase 2, its transcript and its verifier.
pub mod Curve
pub mod Transcript
pub mod Hashing
pub mod Contribute
pub mod Verify
pub mod Params
pub mod Session
pub mod Sound
pub mod Honest
pub mod Accepts
pub mod Chain
mod Toy
mod Tests
