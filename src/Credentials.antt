-- ===== src/Credentials.antt =====
-- crates/credentials: credential values and the active credential leaf.
pub mod Values
pub mod Credential
pub mod Envelope
pub mod Display
mod Runs
