-- ===== src/Credentials/Credential.antt =====
-- crates/credentials/src/credential.rs: the active credential leaf. `none` is a panic of the hash.
pub mod Binding
pub mod Authorizes
use zwa_protocol.Prelude.{◌>>=◌, ℕ, Option, some, List, [], ◌∷◌, Bool, ◌==◌}
use zwa_protocol.Protocol.Error.{Result, map_ok}
use zwa_protocol.Protocol.Field.{FieldElement, from_u64, from_decimal_str}
use zwa_protocol.Protocol.Bytes.{OrchardReceiverBytes}
use zwa_protocol.Protocol.Values.{SubjectSecret, ReceiverCommitment, newtype_eq}
use zwa_protocol.Commitments.Domain.{credential_meta_v1, credential_v2, as_field}
use zwa_protocol.Commitments.Poseidon.{LightPoseidon, poseidon, expect}
use zwa_protocol.Commitments.Trade.{subject_commitment, receiver_commitment}
use zwa_protocol.Credentials.Values.{
  CredentialAuthorityCommitment, CredentialExpiry, CredentialNonce, InvestorClass, Jurisdiction,
}

pub record CredentialMeta : Type 0 where
  pub value : FieldElement

pub record CredentialLeaf : Type 0 where
  pub value : FieldElement

pub record ActiveCredential : Type 0 where
  pub authority_commitment : CredentialAuthorityCommitment
  pub subject_secret : SubjectSecret
  pub investor_class : InvestorClass
  pub jurisdiction : Jurisdiction
  pub credential_expiry : CredentialExpiry
  pub nonce : CredentialNonce
  pub approved_receiver : OrchardReceiverBytes

unfoldable pub leaf_from_decimal_str : List ℕ → Result CredentialLeaf
unfolding from_decimal_str
leaf_from_decimal_str text = map_ok (λ e. record { value = e }) (from_decimal_str text)

unfoldable pub meta_from_decimal_str : List ℕ → Result CredentialMeta
unfolding from_decimal_str
meta_from_decimal_str text = map_ok (λ e. record { value = e }) (from_decimal_str text)

module _ (p : LightPoseidon) where
  unfoldable pub hash4 :
      FieldElement → FieldElement → FieldElement → FieldElement → Option FieldElement
  unfolding poseidon
  hash4 a b c d = poseidon p (a ∷ b ∷ c ∷ d ∷ []) >>= expect

  unfoldable pub approved_receiver_commitment : ActiveCredential → Option ReceiverCommitment
  unfolding receiver_commitment
  approved_receiver_commitment self = receiver_commitment p self.approved_receiver

  unfoldable pub meta : ActiveCredential → Option CredentialMeta
  unfolding hash4
  meta self = do
    h ←
        hash4 (as_field credential_meta_v1) (from_u64 self.investor_class.get)
          (from_u64 self.jurisdiction.get) (from_u64 self.credential_expiry.get)
    some (record { value = h })

  unfoldable pub leaf : ActiveCredential → Option CredentialLeaf
  unfolding subject_commitment meta approved_receiver_commitment poseidon
  leaf self = do
    subject ← subject_commitment p self.subject_secret
    described ← meta self
    receiver ← approved_receiver_commitment self
    h ←
        poseidon p (
          as_field credential_v2
          ∷ self.authority_commitment.value
          ∷ subject.value
          ∷ described.value
          ∷ from_u64 self.nonce.get
          ∷ receiver.value
          ∷ [])
        >>= expect
    some (record { value = h })

  unfoldable pub authorizes : ActiveCredential → OrchardReceiverBytes → Option Bool
  unfolding approved_receiver_commitment receiver_commitment
  authorizes self receiver = do
    approved ← approved_receiver_commitment self
    presented ← receiver_commitment p receiver
    some (approved == presented)
