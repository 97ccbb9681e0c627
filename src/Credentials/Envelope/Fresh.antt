-- ===== src/Credentials/Envelope/Fresh.antt =====
-- The whole path of a root envelope in crates/credentials/src/envelope.rs: an identifier from its
-- bytes, a payload with its version and window, the envelope, and its validation at a time.
use zwa_protocol.Prelude.{ℕ, [], ◌∷◌, ◌≡◌, ◌≤◌, ◌↔◌, List, arith, length}
use zwa_protocol.Protocol.Error.{Result, ok, ◌>>=◌}
use zwa_protocol.Protocol.Numbers.{RootVersion, UnixSeconds, is_valid}
use zwa_protocol.Protocol.Values.{ActiveCredentialRoot, AuthorizedIssuanceRoot}
use zwa_protocol.Protocol.Envelope.{
  OpaqueSignature, StructurallyValid, root_metadata_new, ensure_current_at, contains,
  validity_window_new, RootMetadata, key_identifier_new,
}
use zwa_protocol.Credentials.Values.{issuer_key_id_new, authority_key_id_new}
use zwa_protocol.Credentials.Envelope.{
  IssuerRootEnvelope, CredentialRootEnvelope, issuer_payload_new, issuer_validate_structure_at,
  credential_payload_new, credential_validate_structure_at, issuer_payload_validate,
  credential_payload_validate,
}

-- An envelope that is built from its parts and validated at once.
abbrev pub issuer_path :
    AuthorizedIssuanceRoot
    → List ℕ
    → RootVersion
    → UnixSeconds
    → UnixSeconds
    → OpaqueSignature
    → UnixSeconds
    → Result (StructurallyValid IssuerRootEnvelope)
issuer_path root id version valid_from expires_at signature now =
    issuer_key_id_new id >>= λ issuer_id.
    issuer_payload_new root issuer_id version valid_from expires_at >>= λ payload.
    issuer_validate_structure_at (record { payload = payload; signature = signature }) now

abbrev pub credential_path :
    ActiveCredentialRoot
    → List ℕ
    → RootVersion
    → UnixSeconds
    → UnixSeconds
    → OpaqueSignature
    → UnixSeconds
    → Result (StructurallyValid CredentialRootEnvelope)
credential_path root id version valid_from expires_at signature now =
    authority_key_id_new id >>= λ authority_id.
    credential_payload_new root authority_id version valid_from expires_at >>= λ payload.
    credential_validate_structure_at (record { payload = payload; signature = signature }) now

-- What the path accepts.
abbrev pub Fresh : List ℕ → RootVersion → UnixSeconds → UnixSeconds → UnixSeconds → Type 0
Fresh id version valid_from expires_at now =
    (1 ≤ length id)
    × (length id ≤ 64)
    × (1 ≤ version.get)
    × (valid_from.get ≤ now.get)
    × (now.get ≤ expires_at.get)

abbrev pub metadata_of : RootVersion → UnixSeconds → UnixSeconds → RootMetadata
metadata_of version valid_from expires_at = record {
  version = version;
  window = record { valid_from = valid_from; expires_at = expires_at };
}

abbrev pub issuer_of :
    AuthorizedIssuanceRoot → List ℕ → RootMetadata → OpaqueSignature → IssuerRootEnvelope
issuer_of root id metadata signature = record {
  payload = record {
    root = root;
    issuer_id = record { inner = record { as_bytes = id } };
    metadata = metadata;
  };
  signature = signature;
}

abbrev pub credential_of :
    ActiveCredentialRoot → List ℕ → RootMetadata → OpaqueSignature → CredentialRootEnvelope
credential_of root id metadata signature = record {
  payload = record {
    root = root;
    authority_id = record { inner = record { as_bytes = id } };
    metadata = metadata;
  };
  signature = signature;
}

issuer_path-Fresh :
    (root : AuthorizedIssuanceRoot) (id : List ℕ) (version : RootVersion)
    (valid_from expires_at : UnixSeconds) (signature : OpaqueSignature) (now : UnixSeconds)
    (v : StructurallyValid IssuerRootEnvelope)
    → (issuer_path root id version valid_from expires_at signature now ≡ ok v) ↔ (
        Fresh id version valid_from expires_at now
        × (v.inner ≡ issuer_of root id (metadata_of version valid_from expires_at) signature))
unfolding issuer_key_id_new key_identifier_new issuer_payload_new issuer_validate_structure_at
    issuer_payload_validate root_metadata_new validity_window_new is_valid ensure_current_at
    contains
issuer_path-Fresh root [] version valid_from expires_at signature now v =
    (λ h. cc, λ h. absurd (omega arith))
issuer_path-Fresh root (b ∷ id) version valid_from expires_at signature now v =
    (λ h. ground arith, λ h. ground arith)

credential_path-Fresh :
    (root : ActiveCredentialRoot) (id : List ℕ) (version : RootVersion)
    (valid_from expires_at : UnixSeconds) (signature : OpaqueSignature) (now : UnixSeconds)
    (v : StructurallyValid CredentialRootEnvelope)
    → (credential_path root id version valid_from expires_at signature now ≡ ok v) ↔ (
        Fresh id version valid_from expires_at now
        × (v.inner ≡ credential_of root id (metadata_of version valid_from expires_at) signature))
unfolding authority_key_id_new key_identifier_new credential_payload_new
    credential_validate_structure_at credential_payload_validate root_metadata_new
    validity_window_new is_valid ensure_current_at contains
credential_path-Fresh root [] version valid_from expires_at signature now v =
    (λ h. cc, λ h. absurd (omega arith))
credential_path-Fresh root (b ∷ id) version valid_from expires_at signature now v =
    (λ h. ground arith, λ h. ground arith)

-- An issuer envelope is built from its parts and structurally valid exactly if the identifier has 1
-- to 64 bytes, the version is at least 1, and the time is in the window, both ends included; the
-- valid value is then the envelope of those parts. The same holds of a credential envelope.
pub paths-Fresh :
    (issued : AuthorizedIssuanceRoot) (active : ActiveCredentialRoot) (id : List ℕ)
    (version : RootVersion) (valid_from expires_at : UnixSeconds) (signature : OpaqueSignature)
    (now : UnixSeconds) (v : StructurallyValid IssuerRootEnvelope)
    (w : StructurallyValid CredentialRootEnvelope)
    → ((issuer_path issued id version valid_from expires_at signature now ≡ ok v) ↔ (
        Fresh id version valid_from expires_at now
        × (v.inner ≡ issuer_of issued id (metadata_of version valid_from expires_at) signature)))
      × ((credential_path active id version valid_from expires_at signature now ≡ ok w) ↔ (
          Fresh id version valid_from expires_at now
          × (w.inner
              ≡ credential_of active id (metadata_of version valid_from expires_at) signature)))
paths-Fresh issued active id version valid_from expires_at signature now v w = (
  issuer_path-Fresh issued id version valid_from expires_at signature now v,
  credential_path-Fresh active id version valid_from expires_at signature now w,
)
