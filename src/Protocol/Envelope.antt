-- ===== src/Protocol/Envelope.antt =====
-- crates/protocol/src/envelope.rs: what the signed-root envelopes share.
pub mod Current
use zwa_protocol.Prelude.{ℕ, List, [], ◌∷◌, Bool, true, false, not, ltb, length, if◌then◌else◌}
use zwa_protocol.Protocol.Error.{
  Result, ok, err, ◌>>=◌, ◌>>◌, invalid_root_envelope, invalid_timestamp, unsupported_version,
  window_inverted, missing_authority_identifier, identifier_too_long, signature_missing,
  signature_too_long, not_yet_valid, RootEnvelopeProblem,
}
use zwa_protocol.Protocol.Numbers.{RootVersion, UnixSeconds, is_valid}

abbrev pub key_identifier_max_len : ℕ
key_identifier_max_len = 64

abbrev pub opaque_signature_max_len : ℕ
opaque_signature_max_len = 1024

abbrev pub empty_bytes : List ℕ → Bool
empty_bytes [] = true
empty_bytes (b ∷ bytes) = false

-- `KeyIdentifier(Vec<u8>)`.
pub record KeyIdentifier : Type 0 where
  pub as_bytes : List ℕ

unfoldable pub key_identifier_new : List ℕ → Result KeyIdentifier
key_identifier_new bytes =
    if empty_bytes bytes
    then err (invalid_root_envelope missing_authority_identifier)
    else if ltb key_identifier_max_len (length bytes)
    then err (invalid_root_envelope (identifier_too_long (length bytes) key_identifier_max_len))
    else ok (record { as_bytes = bytes })

pub record ValidityWindow : Type 0 where
  pub valid_from : UnixSeconds
  pub expires_at : UnixSeconds

unfoldable pub validity_window_new : UnixSeconds → UnixSeconds → Result ValidityWindow
validity_window_new valid_from expires_at =
    if ltb expires_at.get valid_from.get
    then err (invalid_timestamp window_inverted)
    else ok (record { valid_from = valid_from; expires_at = expires_at })

unfoldable pub contains : ValidityWindow → UnixSeconds → Result (Unit {0})
contains self now =
    if ltb now.get self.valid_from.get
    then err (invalid_root_envelope (not_yet_valid self.valid_from.get now.get))
    else if ltb self.expires_at.get now.get
    then err (invalid_root_envelope (RootEnvelopeProblem.expired self.expires_at.get now.get))
    else ok tt

pub record RootMetadata : Type 0 where
  pub version : RootVersion
  pub window : ValidityWindow

unfoldable pub root_metadata_new : RootVersion → UnixSeconds → UnixSeconds → Result RootMetadata
unfolding validity_window_new is_valid
root_metadata_new version valid_from expires_at =
    if not (is_valid version)
    then err (unsupported_version version.get)
    else (validity_window_new valid_from expires_at >>= λ window.
        ok (record { version = version; window = window }))

unfoldable pub ensure_current_at : RootMetadata → UnixSeconds → Result (Unit {0})
unfolding contains
ensure_current_at self now = contains self.window now

-- `OpaqueSignature(Vec<u8>)`.
pub record OpaqueSignature : Type 0 where
  pub as_bytes : List ℕ

unfoldable pub opaque_signature_new : List ℕ → Result OpaqueSignature
opaque_signature_new bytes =
    if empty_bytes bytes
    then err (invalid_root_envelope signature_missing)
    else if ltb opaque_signature_max_len (length bytes)
    then err (invalid_root_envelope (signature_too_long (length bytes) opaque_signature_max_len))
    else ok (record { as_bytes = bytes })

-- `StructurallyValid<T>`, whose constructor performs no checks.
pub record StructurallyValid (T : Type 0) : Type 0 where
  pub inner : T
