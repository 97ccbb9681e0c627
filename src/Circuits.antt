-- ===== src/Circuits.antt =====
-- circuits: the constraints that a proof is about, against the values of the Rust crates.
pub mod Shared
pub mod Templates
pub mod Membership
mod Counter
pub mod Eligibility
pub mod Provenance
pub mod Settlement
