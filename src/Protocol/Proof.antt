-- ===== src/Protocol/Proof.antt =====
-- crates/protocol/src/proof.rs: opaque proofs and the interfaces of their verifiers.
pub mod Bounds
use zwa_protocol.Prelude.{ℕ, ◌*◌, List, Bool, true, false, ltb, length, if◌then◌else◌}
use zwa_protocol.Protocol.Error.{Result, ok, err, invalid_proof, empty, too_large}
use zwa_protocol.Protocol.Values.{ActiveCredentialRoot, AuthorizedIssuanceRoot, TradeCommitment}
use zwa_protocol.Protocol.Envelope.{empty_bytes}

abbrev pub opaque_proof_max_len : ℕ
opaque_proof_max_len = 16 * 1024

-- `OpaqueProof(Vec<u8>)`.
pub record OpaqueProof : Type 0 where
  pub as_bytes : List ℕ

unfoldable pub opaque_proof_new : List ℕ → Result OpaqueProof
opaque_proof_new bytes =
    if empty_bytes bytes
    then err (invalid_proof empty)
    else if ltb opaque_proof_max_len (length bytes)
    then err (invalid_proof (too_large (length bytes) opaque_proof_max_len))
    else ok (record { as_bytes = bytes })

pub data VerificationProblem : Type 0 where
  proof_malformed public_input_mismatch proof_rejected : VerificationProblem

pub data VerificationResult : Type 0 where
  valid : VerificationResult
  invalid : (reason : VerificationProblem) → VerificationResult

abbrev pub is_valid : VerificationResult → Bool
is_valid valid = true
is_valid (invalid reason) = false

pub record ProvenancePublicInputs : Type 0 where
  pub authorized_issuance_root : AuthorizedIssuanceRoot
  pub trade_commitment : TradeCommitment

pub record EligibilityPublicInputs : Type 0 where
  pub active_credential_root : ActiveCredentialRoot
  pub trade_commitment : TradeCommitment

-- The traits; no source implements them.
pub record ProvenanceVerifier : Type 0 where
  pub verify : AuthorizedIssuanceRoot → TradeCommitment → OpaqueProof → VerificationResult

pub record EligibilityVerifier : Type 0 where
  pub verify : ActiveCredentialRoot → TradeCommitment → OpaqueProof → VerificationResult
