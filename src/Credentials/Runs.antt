-- ===== src/Credentials/Runs.antt =====
-- A credential, at a hasher that only counts its inputs.
use zwa_protocol.Prelude.{
  ℕ, ◌≡◌, ◌⊎◌, refl, some, List, [], ◌∷◌, arith, replicate, ◌≢◌, true, false,
}
use zwa_protocol.Prelude.Words
use zwa_protocol.Protocol.Field
use zwa_protocol.Protocol.Field.{FieldElement, from_u64}
use zwa_protocol.Protocol.Error.{jurisdiction}
use zwa_protocol.Commitments.Poseidon
use zwa_protocol.Commitments.Counter
use zwa_protocol.Commitments.Counter.{counted, counter, counter-IsCircom}
use zwa_protocol.Commitments.Trade
use zwa_protocol.Credentials.Credential
use zwa_protocol.Credentials.Credential.{
  ActiveCredential, CredentialLeaf, leaf_from_decimal_str, meta_from_decimal_str,
}
use zwa_protocol.Credentials.Display.{
  authority_text, leaf_text, meta_text, nonce_text, policy_code_text,
}
use zwa_protocol.Protocol.Values.{TradeCommitment, newtype_display}
use zwa_protocol.Prelude.Words.{to_be_bytes-IsBytes}
use zwa_protocol.Credentials.Credential.Authorizes.{authorizes_cases}
use zwa_protocol.Protocol.Bytes.{OrchardReceiverBytes}
use zwa_protocol.Commitments.Trade.{RecipientBinding}
use zwa_protocol.Commitments.Trade.Recipient.{receiver_inputs}
use zwa_protocol.Commitments.Poseidon.{hash, Collides}
use zwa_protocol.Credentials.Credential.Binding.{IsCredential, LeavesCollide, leaf-binds}

abbrev credential : ℕ → ActiveCredential
credential serial = record {
  authority_commitment = record { value = counted 1 };
  subject_secret = record { value = counted 2 };
  investor_class = record { get = 3 };
  jurisdiction = record { get = 840 };
  credential_expiry = record { instant = record { get = 2000000000 } };
  nonce = record { get = serial };
  approved_receiver = record { as_bytes = replicate 43 0x2b };
}

credential-IsCredential : (serial : ℕ) → Words.IsU64 serial → IsCredential (credential serial)
credential-IsCredential serial h = record {
  investor_class = omega arith;
  jurisdiction = omega arith;
  credential_expiry = omega arith;
  nonce = h;
  approved_receiver = (refl, omega arith);
}

same_leaf : Credential.leaf counter (credential 5) ≡ Credential.leaf counter (credential 6)
unfolding Credential.leaf Credential.meta Credential.hash4 Credential.approved_receiver_commitment
    Trade.subject_commitment Trade.receiver_commitment Poseidon.hash Poseidon.poseidon
    Counter.count_inputs Words.to_be_bytes Field.from_be_slice
same_leaf = refl

leaf-binds_example :
    (credential 5 ≡ credential 6) ⊎ LeavesCollide counter (credential 5) (credential 6)
leaf-binds_example =
    leaf-binds counter counter-IsCircom (credential 5) (credential 6)
      (credential-IsCredential 5 (omega arith)) (credential-IsCredential 6 (omega arith)) same_leaf

abbrev receiver : OrchardReceiverBytes
receiver = record { as_bytes = replicate 43 0x2c }

authorizes_cases_example :
    ((Credential.authorizes counter (credential 5) receiver ≡ some true)
      × (((credential 5).approved_receiver ≡ receiver)
          ⊎ Collides counter
              (receiver_inputs (credential 5).approved_receiver)
              (receiver_inputs receiver)))
    ⊎ ((Credential.authorizes counter (credential 5) receiver ≡ some false)
        × ((credential 5).approved_receiver ≢ receiver))
authorizes_cases_example =
    authorizes_cases counter counter-IsCircom (credential 5) receiver (refl, omega arith)
      (refl, omega arith)

abbrev read : TradeCommitment
read = record { value = from_u64 70 }

-- "70"
abbrev seventy : List ℕ
seventy = 55 ∷ 48 ∷ []

texts_of_seventy :
    (newtype_display tt read ≡ seventy)
    × (authority_text (record { value = from_u64 70 }) ≡ seventy)
    × (leaf_text (record { value = from_u64 70 }) ≡ seventy)
    × (meta_text (record { value = from_u64 70 }) ≡ seventy)
    × (nonce_text (record { get = 70 }) ≡ seventy)
    × (policy_code_text {field = jurisdiction} (record { get = 70 }) ≡ seventy)
unfolding newtype_display authority_text leaf_text meta_text nonce_text policy_code_text from_u64
texts_of_seventy = (refl, refl, refl, refl, refl, refl)
