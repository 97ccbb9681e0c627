-- ===== src/Circuits/Eligibility/Holder.antt =====
-- A credential, and that it is used for the trade of Counter.
use zwa_protocol.Prelude.{◌≡◌, refl, some, true, arith, replicate}
use zwa_protocol.Prelude.Words
use zwa_protocol.Protocol.Field
use zwa_protocol.Protocol.Field.{FieldElement, field_zero, field_eq, field_beq, from_u64}
use zwa_protocol.Commitments.Poseidon.{hash, poseidon}
use zwa_protocol.Commitments.Counter
use zwa_protocol.Commitments.Counter.{counted, counter, counter-IsCircom}
use zwa_protocol.Commitments.Trade
use zwa_protocol.Commitments.Trade.{RecipientBinding, TradeCommitmentParts}
use zwa_protocol.Credentials.Values.{covers_trade_expiry}
use zwa_protocol.Credentials.Credential
use zwa_protocol.Credentials.Credential.{ActiveCredential, CredentialLeaf}
use zwa_protocol.Credentials.Credential.Binding.{IsCredential}
use zwa_protocol.Circuits.Counter.{intent}

abbrev pub credential : ActiveCredential
credential = record {
  authority_commitment = record { value = counted 1 };
  subject_secret = record { value = counted 2 };
  investor_class = record { get = 3 };
  jurisdiction = record { get = 840 };
  credential_expiry = record { instant = record { get = 2050000000 } };
  nonce = record { get = 41 };
  approved_receiver = record { as_bytes = replicate 43 0x2b };
}

pub credential-IsCredential : IsCredential credential
credential-IsCredential = record {
  investor_class = omega arith;
  jurisdiction = omega arith;
  credential_expiry = omega arith;
  nonce = omega arith;
  approved_receiver = (refl, omega arith);
}

abbrev pub active_leaf : CredentialLeaf
active_leaf = record { value = counted 6 }

abbrev pub bound : RecipientBinding
bound = record {
  subject_commitment = record { value = counted 2 };
  receiver_commitment = record { value = counted 4 };
  recipient_commitment = record { value = counted 3 };
}

pub leaf_of : Credential.leaf counter credential ≡ some active_leaf
unfolding Credential.leaf Credential.meta Credential.hash4 Credential.approved_receiver_commitment
    Trade.subject_commitment Trade.receiver_commitment hash poseidon Counter.count_inputs
    Words.to_be_bytes Field.from_be_slice
leaf_of = refl

pub bound_of :
    Trade.bind_recipient counter credential.subject_secret credential.approved_receiver ≡ some bound
unfolding Trade.bind_recipient Trade.subject_commitment Trade.receiver_commitment
    Trade.recipient_commitment hash poseidon Counter.count_inputs Words.to_be_bytes
    Field.from_be_slice
bound_of = refl

pub covers : covers_trade_expiry credential.credential_expiry intent.expiry.instant ≡ true
unfolding covers_trade_expiry
covers = refl
