-- ===== src/Protocol.antt =====
-- crates/protocol: canonical types, validation and state rules.
pub mod Lifecycle
pub mod Error
pub mod Numbers
pub mod Field
pub mod Bytes
pub mod Values
pub mod Intent
pub mod Envelope
pub mod Proof
pub mod Display
mod Runs
pub mod Replay
