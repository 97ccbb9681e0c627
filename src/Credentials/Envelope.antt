-- ===== src/Credentials/Envelope.antt =====
-- crates/credentials/src/envelope.rs: the issuer and credential root envelopes, and the bytes of
-- their payloads that are signed.
pub mod Signed
pub mod Fresh
mod Runs
use zwa_protocol.Prelude.{ℕ, ◌%◌, List, [], ◌∷◌, ◌++◌, length}
use zwa_protocol.Prelude.Words
use zwa_protocol.Protocol.Error.{Result, ok, err, ◌>>=◌}
use zwa_protocol.Protocol.Numbers.{RootVersion, UnixSeconds}
use zwa_protocol.Protocol.Values.{ActiveCredentialRoot, AuthorizedIssuanceRoot}
use zwa_protocol.Protocol.Envelope.{
  RootMetadata, OpaqueSignature, StructurallyValid, root_metadata_new, ensure_current_at,
}
use zwa_protocol.Credentials.Values.{AuthorityKeyId, IssuerKeyId}

-- "ZWA1ROOT"
abbrev pub payload_magic : List ℕ
payload_magic = b'Z' ∷ b'W' ∷ b'A' ∷ b'1' ∷ b'R' ∷ b'O' ∷ b'O' ∷ b'T' ∷ []

abbrev pub kind_issuer : ℕ
kind_issuer = 1

abbrev pub kind_credential : ℕ
kind_credential = 2

-- `identifier.len() as u8` keeps the low eight bits.
unfoldable pub encode_payload : ℕ → ℕ → ℕ → ℕ → List ℕ → List ℕ → List ℕ
unfolding Words.to_be_bytes
encode_payload kind version valid_from expires_at identifier root =
    payload_magic
    ++ (kind
        ∷ (Words.to_be_bytes 8 version
            ++ (Words.to_be_bytes 8 valid_from
                ++ (Words.to_be_bytes 8 expires_at
                    ++ ((length identifier % 256) ∷ (identifier ++ root))))))

pub record IssuerRootPayload : Type 0 where
  pub root : AuthorizedIssuanceRoot
  pub issuer_id : IssuerKeyId
  pub metadata : RootMetadata

pub record IssuerRootEnvelope : Type 0 where
  pub payload : IssuerRootPayload
  pub signature : OpaqueSignature

pub record CredentialRootPayload : Type 0 where
  pub root : ActiveCredentialRoot
  pub authority_id : AuthorityKeyId
  pub metadata : RootMetadata

pub record CredentialRootEnvelope : Type 0 where
  pub payload : CredentialRootPayload
  pub signature : OpaqueSignature

-- The methods of `IssuerRootPayload` and `IssuerRootEnvelope`.
unfoldable pub issuer_payload_new :
    AuthorizedIssuanceRoot
    → IssuerKeyId
    → RootVersion
    → UnixSeconds
    → UnixSeconds
    → Result IssuerRootPayload
unfolding root_metadata_new
issuer_payload_new root issuer_id version valid_from expires_at =
    root_metadata_new version valid_from expires_at >>= λ metadata.
    ok (record { root = root; issuer_id = issuer_id; metadata = metadata })

unfoldable pub issuer_canonical_bytes : IssuerRootPayload → List ℕ
unfolding encode_payload
issuer_canonical_bytes self =
    encode_payload kind_issuer self.metadata.version.get self.metadata.window.valid_from.get
      self.metadata.window.expires_at.get self.issuer_id.inner.as_bytes self.root.value.to_be_bytes

unfoldable pub issuer_payload_validate :
    IssuerRootPayload → UnixSeconds → Result (StructurallyValid IssuerRootPayload)
unfolding ensure_current_at
issuer_payload_validate self now =
    ensure_current_at self.metadata now >>= λ _. ok (record { inner = self })

unfoldable pub issuer_canonical_payload_bytes : IssuerRootEnvelope → List ℕ
unfolding issuer_canonical_bytes
issuer_canonical_payload_bytes self = issuer_canonical_bytes self.payload

unfoldable pub issuer_validate_structure_at :
    IssuerRootEnvelope → UnixSeconds → Result (StructurallyValid IssuerRootEnvelope)
unfolding issuer_payload_validate
issuer_validate_structure_at self now =
    issuer_payload_validate self.payload now >>= λ _. ok (record { inner = self })

-- The methods of `CredentialRootPayload` and `CredentialRootEnvelope`.
unfoldable pub credential_payload_new :
    ActiveCredentialRoot
    → AuthorityKeyId
    → RootVersion
    → UnixSeconds
    → UnixSeconds
    → Result CredentialRootPayload
unfolding root_metadata_new
credential_payload_new root authority_id version valid_from expires_at =
    root_metadata_new version valid_from expires_at >>= λ metadata.
    ok (record { root = root; authority_id = authority_id; metadata = metadata })

unfoldable pub credential_canonical_bytes : CredentialRootPayload → List ℕ
unfolding encode_payload
credential_canonical_bytes self =
    encode_payload kind_credential self.metadata.version.get self.metadata.window.valid_from.get
      self.metadata.window.expires_at.get self.authority_id.inner.as_bytes
      self.root.value.to_be_bytes

unfoldable pub credential_payload_validate :
    CredentialRootPayload → UnixSeconds → Result (StructurallyValid CredentialRootPayload)
unfolding ensure_current_at
credential_payload_validate self now =
    ensure_current_at self.metadata now >>= λ _. ok (record { inner = self })

unfoldable pub credential_canonical_payload_bytes : CredentialRootEnvelope → List ℕ
unfolding credential_canonical_bytes
credential_canonical_payload_bytes self = credential_canonical_bytes self.payload

unfoldable pub credential_validate_structure_at :
    CredentialRootEnvelope → UnixSeconds → Result (StructurallyValid CredentialRootEnvelope)
unfolding credential_payload_validate
credential_validate_structure_at self now =
    credential_payload_validate self.payload now >>= λ _. ok (record { inner = self })
