-- ===== src/Credentials/Display.antt =====
-- The texts of `Display` in crates/credentials/src: values.rs and credential.rs.
use zwa_protocol.Prelude.{ℕ, List}
use zwa_protocol.Protocol.Error.{CredentialCodeField}
use zwa_protocol.Protocol.Field.{to_decimal_string}
use zwa_protocol.Protocol.Display.{number_text, u64_text}
use zwa_protocol.Credentials.Values.{
  CredentialAuthorityCommitment, CredentialExpiry, CredentialNonce, PolicyCode,
}
use zwa_protocol.Credentials.Credential.{CredentialLeaf, CredentialMeta}

unfoldable pub nonce_text : CredentialNonce → List ℕ
unfolding number_text
nonce_text self = number_text self.get

unfoldable pub policy_code_text : {field : CredentialCodeField} → PolicyCode field → List ℕ
unfolding number_text
policy_code_text self = number_text self.get

unfoldable pub credential_expiry_text : CredentialExpiry → List ℕ
unfolding u64_text
credential_expiry_text self = u64_text self.instant

unfoldable pub authority_text : CredentialAuthorityCommitment → List ℕ
unfolding to_decimal_string
authority_text self = to_decimal_string self.value

unfoldable pub leaf_text : CredentialLeaf → List ℕ
unfolding to_decimal_string
leaf_text self = to_decimal_string self.value

unfoldable pub meta_text : CredentialMeta → List ℕ
unfolding to_decimal_string
meta_text self = to_decimal_string self.value
