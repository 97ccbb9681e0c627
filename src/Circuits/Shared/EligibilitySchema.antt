-- ===== src/Circuits/Shared/EligibilitySchema.antt =====
-- circuits/shared/eligibility-v1.js: `computeRecipientBinding` and `computeCredential`, and what
-- `issueCredential` of scripts/generate-phase1b-fixture.js makes of them.
pub mod Agreement
use zwa_protocol.Prelude.{ℕ, Option, some, List, [], ◌∷◌, ◌>>=◌}
use zwa_protocol.Prelude.Int.{ℤ, pos}
use zwa_protocol.Circuits.Shared.BigInts.{
  LimbsOfReceiver, receiver_to_limbs, assert_u64, assert_field,
}

pub record ComputedBinding : Type 0 where
  pub subject_commitment : ℤ
  pub receiver_commitment : ℤ
  pub recipient_commitment : ℤ
  pub receiver_limbs : LimbsOfReceiver

-- The fields of `computeCredential` but the last.
pub record CredentialFields : Type 0 where
  pub subject_secret : ℤ
  pub credential_authority_commitment : ℤ
  pub investor_class : ℤ
  pub jurisdiction : ℤ
  pub credential_expiry : ℤ
  pub credential_nonce : ℤ

pub record ComputedCredential : Type 0 where
  pub subject_commitment : ℤ
  pub credential_meta : ℤ
  pub credential_leaf : ℤ

module _ (hash : List ℤ → Option ℤ) where
  unfoldable pub compute_recipient_binding : ℤ → List ℕ → Option ComputedBinding
  unfolding receiver_to_limbs assert_field
  compute_recipient_binding subject_secret receiver_hex = do
    limbs ← receiver_to_limbs receiver_hex
    secret ← assert_field subject_secret
    subject ← hash (pos 6004778564925477937 ∷ secret ∷ [])
    receiver ← hash (pos 5928218449365324337 ∷ limbs.limb0 ∷ limbs.limb1 ∷ limbs.limb2 ∷ [])
    recipient ← hash (pos 5927669780177634353 ∷ subject ∷ receiver ∷ [])
    some (record {
      subject_commitment = subject;
      receiver_commitment = receiver;
      recipient_commitment = recipient;
      receiver_limbs = limbs;
    })

  unfoldable pub compute_credential : CredentialFields → ℤ → Option ComputedCredential
  unfolding assert_field assert_u64
  compute_credential fields approved_receiver_commitment = do
    secret ← assert_field fields.subject_secret
    subject ← hash (pos 6004778564925477937 ∷ secret ∷ [])
    class ← assert_u64 fields.investor_class
    jurisdiction ← assert_u64 fields.jurisdiction
    expiry ← assert_u64 fields.credential_expiry
    meta ← hash (pos 4851015908287927361 ∷ class ∷ jurisdiction ∷ expiry ∷ [])
    authority ← assert_field fields.credential_authority_commitment
    nonce ← assert_u64 fields.credential_nonce
    approved ← assert_field approved_receiver_commitment
    leaf ← hash (pos 18949280892933682 ∷ authority ∷ subject ∷ meta ∷ nonce ∷ approved ∷ [])
    some (record { subject_commitment = subject; credential_meta = meta; credential_leaf = leaf })

  -- `issueCredential`, without its tree.
  unfoldable pub issue_credential :
      CredentialFields → List ℕ → Option (ComputedBinding × ComputedCredential)
  unfolding compute_recipient_binding compute_credential
  issue_credential fields receiver_hex = do
    binding ← compute_recipient_binding fields.subject_secret receiver_hex
    credential ← compute_credential fields binding.receiver_commitment
    some (binding, credential)
