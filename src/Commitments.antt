-- ===== src/Commitments.antt =====
-- crates/commitments: the frozen commitment schemas over Poseidon.
pub mod AssetBase
pub mod Receiver
pub mod Domain
pub mod Poseidon
pub mod Counter
pub mod Trade
mod Runs
