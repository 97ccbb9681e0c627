-- ===== src/Circuits/Eligibility/Signals.antt =====
-- The signals of circuits/eligibility/rwa_investor_eligibility_v1.circom that a credential and an
-- intent of the crates give.
use zwa_protocol.Prelude.{List}
use zwa_protocol.Protocol.Field.{FieldElement, from_u64, from_u128}
use zwa_protocol.Protocol.Intent.{TradeIntent}
use zwa_protocol.Commitments.AssetBase.{encode_asset_base}
use zwa_protocol.Commitments.Receiver.{encode_receiver}
use zwa_protocol.Commitments.Trade.{TradeCommitmentParts}
use zwa_protocol.Credentials.Credential.{ActiveCredential}
use zwa_protocol.Circuits.Eligibility.{PrivateSignals, Hashes}

-- Where two leaves stand in their trees.
pub record MerklePaths : Type 0 where
  pub credential_siblings : List FieldElement
  pub credential_path : List FieldElement
  pub policy_siblings : List FieldElement
  pub policy_path : List FieldElement

-- The private signals of a credential and the intent that it is used for.
abbrev pub signals_of : ActiveCredential → TradeIntent → MerklePaths → PrivateSignals
signals_of c intent paths = record {
  subject_secret = c.subject_secret.value;
  credential_authority_commitment = c.authority_commitment.value;
  investor_class = from_u64 c.investor_class.get;
  jurisdiction = from_u64 c.jurisdiction.get;
  credential_expiry = from_u64 c.credential_expiry.get;
  credential_nonce = from_u64 c.nonce.get;
  credential_merkle_siblings = paths.credential_siblings;
  credential_merkle_path_indices = paths.credential_path;
  policy_root = intent.policy_root.value;
  allowed_investor_class = from_u64 c.investor_class.get;
  allowed_jurisdiction = from_u64 c.jurisdiction.get;
  policy_merkle_siblings = paths.policy_siblings;
  policy_merkle_path_indices = paths.policy_path;
  receiver_limb0 = from_u128 (encode_receiver c.approved_receiver).limb0;
  receiver_limb1 = from_u128 (encode_receiver c.approved_receiver).limb1;
  receiver_limb2 = from_u128 (encode_receiver c.approved_receiver).limb2;
  offered_asset_hi = from_u128 (encode_asset_base intent.offered_asset).hi;
  offered_asset_lo = from_u128 (encode_asset_base intent.offered_asset).lo;
  offered_amount = from_u64 intent.offered_amount.get;
  requested_asset_hi = from_u128 (encode_asset_base intent.requested_asset).hi;
  requested_asset_lo = from_u128 (encode_asset_base intent.requested_asset).lo;
  requested_amount = from_u64 intent.requested_amount.get;
  matcher_fee_amount = from_u64 intent.matcher_fee.amount.get;
  matcher_fee_recipient_commitment = intent.matcher_fee.recipient_commitment.value;
  nonce = from_u64 intent.nonce.get;
  expiry = from_u64 intent.expiry.get;
}

abbrev pub hashes_of :
    FieldElement
    → FieldElement
    → FieldElement
    → FieldElement
    → FieldElement
    → TradeIntent
    → TradeCommitmentParts
    → Hashes
hashes_of s m r l policy_leaf intent parts = record {
  subject = s;
  receiver = r;
  credential_meta = m;
  credential_leaf = l;
  recipient = intent.recipient_commitment.value;
  policy_leaf = policy_leaf;
  offered_asset = parts.offered_asset_commitment.value;
  requested_asset = parts.requested_asset_commitment.value;
  fee = parts.fee_commitment.value;
  trade_part_a = parts.trade_part_a.value;
  trade_part_b = parts.trade_part_b.value;
  trade_meta = parts.trade_meta.value;
}
