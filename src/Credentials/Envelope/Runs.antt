-- ===== src/Credentials/Envelope/Runs.antt =====
-- A root of each kind, its signed bytes, and the theorems at it.
use zwa_protocol.Prelude.{
  ℕ, ◌≡◌, ◌≢◌, ◌↔◌, List, [], ◌∷◌, ◌++◌, arith, refl, replicate, length, ◌<◌, ◌^◌,
}
use zwa_protocol.Protocol.Error.{ok}
use zwa_protocol.Protocol.Numbers.{RootVersion, UnixSeconds}
use zwa_protocol.Protocol.Values.{
  FieldNewtype, FieldKind, ActiveCredentialRoot, AuthorizedIssuanceRoot,
}
use zwa_protocol.Protocol.Envelope.{OpaqueSignature}
use zwa_protocol.Credentials.Envelope.{
  IssuerRootPayload, CredentialRootPayload, IssuerRootEnvelope, CredentialRootEnvelope,
  issuer_canonical_bytes, credential_canonical_bytes,
}
use zwa_protocol.Credentials.Envelope.Signed.{IsPayload, canonical_bytes-injective}
use zwa_protocol.Credentials.Envelope.Fresh.{
  issuer_path, credential_path, Fresh, metadata_of, issuer_of, credential_of, paths-Fresh,
}

abbrev issued : AuthorizedIssuanceRoot
issued = record { value = record { to_be_bytes = replicate 31 0 ++ (7 ∷ []) } }

abbrev active : ActiveCredentialRoot
active = record { value = record { to_be_bytes = replicate 31 0 ++ (7 ∷ []) } }

abbrev id : List ℕ
id = b'k' ∷ b'1' ∷ []

abbrev version : ℕ → RootVersion
version n = record { get = n }

abbrev at_time : ℕ → UnixSeconds
at_time n = record { get = n }

abbrev signature : OpaqueSignature
signature = record { as_bytes = replicate 64 9 }

abbrev issuer_envelope : ℕ → IssuerRootEnvelope
issuer_envelope n =
    issuer_of issued id (metadata_of (version n) (at_time 100) (at_time 200)) signature

abbrev credential_envelope : ℕ → CredentialRootEnvelope
credential_envelope n =
    credential_of active id (metadata_of (version n) (at_time 100) (at_time 200)) signature

abbrev issuer_payload : ℕ → IssuerRootPayload
issuer_payload n = (issuer_envelope n).payload

abbrev credential_payload : ℕ → CredentialRootPayload
credential_payload n = (credential_envelope n).payload

metadata_of-IsPayload :
    {kind : FieldKind} (n : ℕ) (root : FieldNewtype kind)
    → n < 2 ^ 64
    → length root.value.to_be_bytes ≡ 32
    → IsPayload
        (metadata_of (version n) (at_time 100) (at_time 200))
        (record { as_bytes = id })
        root
metadata_of-IsPayload n root h fixed = record {
  version = h;
  valid_from = omega arith;
  expires_at = omega arith;
  identified = omega arith;
  rooted = fixed;
}

canonical_bytes-injective_example :
    ((issuer_canonical_bytes (issuer_payload 1) ≡ issuer_canonical_bytes (issuer_payload 2))
      ↔ (issuer_payload 1 ≡ issuer_payload 2))
    × ((credential_canonical_bytes (credential_payload 1)
          ≡ credential_canonical_bytes (credential_payload 2))
        ↔ (credential_payload 1 ≡ credential_payload 2))
    × (issuer_canonical_bytes (issuer_payload 1)
        ≢ credential_canonical_bytes (credential_payload 1))
canonical_bytes-injective_example =
    canonical_bytes-injective (issuer_payload 1) (issuer_payload 2) (credential_payload 1)
      (credential_payload 2) (metadata_of-IsPayload 1 issued (omega arith) refl)
      (metadata_of-IsPayload 2 issued (omega arith) refl)
      (metadata_of-IsPayload 1 active (omega arith) refl)
      (metadata_of-IsPayload 2 active (omega arith) refl)

paths-Fresh_example :
    ((issuer_path issued id (version 1) (at_time 100) (at_time 200) signature (at_time 200)
        ≡ ok (record { inner = issuer_envelope 1 }))
      ↔ (Fresh id (version 1) (at_time 100) (at_time 200) (at_time 200)
          × (issuer_envelope 1 ≡ issuer_envelope 1)))
    × ((credential_path active id (version 1) (at_time 100) (at_time 200) signature (at_time 200)
          ≡ ok (record { inner = credential_envelope 1 }))
        ↔ (Fresh id (version 1) (at_time 100) (at_time 200) (at_time 200)
            × (credential_envelope 1 ≡ credential_envelope 1)))
paths-Fresh_example =
    paths-Fresh issued active id (version 1) (at_time 100) (at_time 200) signature (at_time 200)
      (record { inner = issuer_envelope 1 }) (record { inner = credential_envelope 1 })
