-- ===== src/Circuits/Shared.antt =====
-- circuits/shared: what the circuits and the JavaScript reference share.
pub mod MerklePath
pub mod MerkleTree
pub mod BigInts
pub mod TradeCommitment
pub mod EligibilitySchema
mod Runs
