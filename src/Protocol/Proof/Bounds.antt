-- ===== src/Protocol/Proof/Bounds.antt =====
-- The containers of bounded size: identifiers and signatures (crates/protocol/src/envelope.rs), and
-- proofs (crates/protocol/src/proof.rs).
use zwa_protocol.Prelude.{ℕ, ◌≡◌, ◌≤◌, ◌<◌, ◌⊎◌, refl, inl, inr, List, [], ◌∷◌, arith, length}
use zwa_protocol.Protocol.Error.{
  Result, ok, err, invalid_root_envelope, invalid_proof, missing_authority_identifier,
  identifier_too_long, signature_missing, signature_too_long, empty, too_large, ProtocolError,
}
use zwa_protocol.Protocol.Envelope.{key_identifier_new, opaque_signature_new}
use zwa_protocol.Protocol.Proof.{opaque_proof_new}

-- A container of at most `max` bytes: it is built from 1 to `max` bytes and keeps them, and
-- otherwise the error is that of no bytes or that of too many.
abbrev pub Bounded :
    {A : Type 0} → ℕ → ProtocolError → (ℕ → ℕ → ProtocolError) → List ℕ → Result A → A → Type 0
Bounded max missing too_long bytes outcome built =
    ((1 ≤ length bytes) × (length bytes ≤ max) × (outcome ≡ ok built))
    ⊎ ((length bytes ≡ 0) × (outcome ≡ err missing))
    ⊎ ((max < length bytes) × (outcome ≡ err (too_long (length bytes) max)))

-- Identifiers have 1 to 64 bytes, signatures 1 to 1024 and proofs 1 to 16384: the constructors keep
-- such bytes, and tell no bytes from too many.
pub containers-Bounded :
    (bytes : List ℕ)
    → Bounded 64
        (invalid_root_envelope missing_authority_identifier)
        (λ got max. invalid_root_envelope (identifier_too_long got max))
        bytes
        (key_identifier_new bytes)
        (record { as_bytes = bytes })
      × Bounded 1024
          (invalid_root_envelope signature_missing)
          (λ got max. invalid_root_envelope (signature_too_long got max))
          bytes
          (opaque_signature_new bytes)
          (record { as_bytes = bytes })
      × Bounded 16384
          (invalid_proof empty)
          (λ got max. invalid_proof (too_large got max))
          bytes
          (opaque_proof_new bytes)
          (record { as_bytes = bytes })
unfolding key_identifier_new opaque_signature_new opaque_proof_new
containers-Bounded [] = (inr (inl (refl, refl)), inr (inl (refl, refl)), inr (inl (refl, refl)))
containers-Bounded (b ∷ bytes) = (ground arith, ground arith, ground arith)
