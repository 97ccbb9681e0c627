-- ===== src/Credentials/Values.antt =====
-- crates/credentials/src/values.rs and ids.rs: credential codes, nonces, expiries and identifiers.
pub mod Ranges
use zwa_protocol.Prelude.{ℕ, ◌-◌, ◌^◌, ◌%◌, List, Bool, ltb, leb, if◌then◌else◌}
use zwa_protocol.Protocol.Error.{
  Result, ok, err, map_ok, CredentialCodeField, credential_code_out_of_range,
}
use zwa_protocol.Protocol.Numbers.{UnixSeconds}
use zwa_protocol.Protocol.Field.{FieldElement, from_decimal_str}
use zwa_protocol.Protocol.Envelope.{KeyIdentifier, key_identifier_new}

pub record IssuerKeyId : Type 0 where
  pub inner : KeyIdentifier

pub record AuthorityKeyId : Type 0 where
  pub inner : KeyIdentifier

unfoldable pub issuer_key_id_new : List ℕ → Result IssuerKeyId
unfolding key_identifier_new
issuer_key_id_new bytes = map_ok (λ k. record { inner = k }) (key_identifier_new bytes)

unfoldable pub authority_key_id_new : List ℕ → Result AuthorityKeyId
unfolding key_identifier_new
authority_key_id_new bytes = map_ok (λ k. record { inner = k }) (key_identifier_new bytes)

pub record CredentialNonce : Type 0 where
  pub get : ℕ  -- u64

-- The types that `policy_code!` makes, kept apart by the field: `InvestorClass` is a `u8` and
-- `Jurisdiction` a `u16`.
abbrev pub code_bits : CredentialCodeField → ℕ
code_bits CredentialCodeField.investor_class = 8
code_bits CredentialCodeField.jurisdiction = 16

abbrev pub code_max : CredentialCodeField → ℕ
code_max field = 2 ^ code_bits field - 1

pub record PolicyCode (field : CredentialCodeField) : Type 0 where
  pub get : ℕ

abbrev pub InvestorClass : Type 0
InvestorClass = PolicyCode CredentialCodeField.investor_class

abbrev pub Jurisdiction : Type 0
Jurisdiction = PolicyCode CredentialCodeField.jurisdiction

-- `value as $repr` keeps the low bits.
unfoldable pub code_from_u64 : (field : CredentialCodeField) → ℕ → Result (PolicyCode field)
code_from_u64 field value =
    if ltb (code_max field) value
    then err (credential_code_out_of_range field (code_bits field))
    else ok (record { get = value % 2 ^ code_bits field })

pub record CredentialExpiry : Type 0 where
  pub instant : UnixSeconds
  pub open instant use *

unfoldable pub covers_trade_expiry : CredentialExpiry → UnixSeconds → Bool
covers_trade_expiry self trade_expiry = leb trade_expiry.get self.get

pub record CredentialAuthorityCommitment : Type 0 where
  pub value : FieldElement

unfoldable pub authority_commitment_from_decimal_str : List ℕ → Result CredentialAuthorityCommitment
unfolding from_decimal_str
authority_commitment_from_decimal_str text =
    map_ok (λ v. record { value = v }) (from_decimal_str text)
