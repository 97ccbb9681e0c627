-- ===== src/Commitments/Trade.antt =====
-- crates/commitments/src/trade.rs: the staging of the commitments. `none` is a panic of `hash`.
pub mod Stages
pub mod Binding
pub mod Verify
pub mod Recipient
pub mod Bytes
use zwa_protocol.Prelude.{
  ◌>>=◌, ℕ, zero, suc, ◌+◌, ◌%◌, ◌^◌, Option, some, List, [], ◌∷◌, length, take, drop,
  if◌then◌else◌, ◌==◌, not,
}
use zwa_protocol.Protocol.Error.{Result, ok, err, commitment_mismatch}
use zwa_protocol.Protocol.Field.{FieldElement, from_u64, from_u128, to_decimal_string}
use zwa_protocol.Protocol.Bytes.{AssetBaseBytes, OrchardReceiverBytes}
use zwa_protocol.Protocol.Values.{
  AssetCommitment, SubjectSecret, SubjectCommitment, ReceiverCommitment, RecipientCommitment,
  FeeCommitment, TradePartA, TradePartB, TradeMeta, TradeCommitment, MatcherFee, newtype_eq,
}
use zwa_protocol.Protocol.Intent.{TradeIntent}
use zwa_protocol.Commitments.AssetBase.{little_endian_u128, encode_asset_base}
use zwa_protocol.Commitments.Receiver.{encode_receiver}
use zwa_protocol.Commitments.Domain.{
  Domain, asset_v1, fee_v1, trade_a_v1, trade_b_v1, trade_meta_v1, trade_v1, zec_asset_tag,
  subject_v1, receiver_v1, recipient_binding_v1, fee_recipient_v1, as_field,
}
use zwa_protocol.Commitments.Poseidon.{LightPoseidon, hash}

abbrev canonical_byte_chunk : ℕ
canonical_byte_chunk = 16

-- `bytes.chunks(CANONICAL_BYTE_CHUNK)`, with one step for each byte.
unfoldable pub chunks : ℕ → List ℕ → List (List ℕ)
chunks zero bytes = []
chunks (suc fuel) [] = []
chunks (suc fuel) (b ∷ bytes) =
    take canonical_byte_chunk (b ∷ bytes) ∷ chunks fuel (drop canonical_byte_chunk (b ∷ bytes))

pub record RecipientBinding : Type 0 where
  pub subject_commitment : SubjectCommitment
  pub receiver_commitment : ReceiverCommitment
  pub recipient_commitment : RecipientCommitment

pub record TradeCommitmentParts : Type 0 where
  pub offered_asset_commitment : AssetCommitment
  pub requested_asset_commitment : AssetCommitment
  pub fee_commitment : FeeCommitment
  pub trade_part_a : TradePartA
  pub trade_part_b : TradePartB
  pub trade_meta : TradeMeta
  pub trade_commitment : TradeCommitment

module _ (p : LightPoseidon) where
  unfoldable pub asset_commitment : AssetBaseBytes → Option AssetCommitment
  unfolding encode_asset_base hash
  asset_commitment asset = do
    let limbs = encode_asset_base asset
    h ← hash p (as_field asset_v1 ∷ from_u128 limbs.hi ∷ from_u128 limbs.lo ∷ [])
    some (record { value = h })

  unfoldable pub subject_commitment : SubjectSecret → Option SubjectCommitment
  unfolding hash
  subject_commitment secret = do
    h ← hash p (as_field subject_v1 ∷ secret.value ∷ [])
    some (record { value = h })

  unfoldable pub receiver_commitment : OrchardReceiverBytes → Option ReceiverCommitment
  unfolding encode_receiver hash
  receiver_commitment receiver = do
    let limbs = encode_receiver receiver
    h ← hash p (
        as_field receiver_v1
        ∷ from_u128 limbs.limb0
        ∷ from_u128 limbs.limb1
        ∷ from_u128 limbs.limb2
        ∷ [])
    some (record { value = h })

  unfoldable pub recipient_commitment :
      SubjectCommitment → ReceiverCommitment → Option RecipientCommitment
  unfolding hash
  recipient_commitment subject receiver = do
    h ← hash p (as_field recipient_binding_v1 ∷ subject.value ∷ receiver.value ∷ [])
    some (record { value = h })

  unfoldable pub bind_recipient : SubjectSecret → OrchardReceiverBytes → Option RecipientBinding
  unfolding subject_commitment receiver_commitment recipient_commitment
  bind_recipient secret receiver = do
    subject ← subject_commitment secret
    bound ← receiver_commitment receiver
    recipient ← recipient_commitment subject bound
    some (record {
      subject_commitment = subject;
      receiver_commitment = bound;
      recipient_commitment = recipient;
    })

  unfoldable pub fee_commitment : MatcherFee → Option FeeCommitment
  unfolding hash
  fee_commitment fee = do
    h ← hash p (
        as_field fee_v1
        ∷ as_field zec_asset_tag
        ∷ from_u64 fee.amount.get
        ∷ fee.recipient_commitment.value
        ∷ [])
    some (record { value = h })

  -- The loop over the chunks.
  unfoldable pub absorb : FieldElement → ℕ → List (List ℕ) → Option FieldElement
  unfolding hash little_endian_u128
  absorb state index [] = some state
  absorb state index (chunk ∷ rest) =
      hash p (state ∷ from_u128 (little_endian_u128 chunk) ∷ from_u64 (index % 2 ^ 64) ∷ [])
      >>= λ next. absorb next (index + 1) rest

  unfoldable pub canonical_bytes_commitment : Domain → List ℕ → Option FieldElement
  unfolding chunks absorb hash
  canonical_bytes_commitment domain bytes = do
    let parts = chunks (length bytes) bytes
    state ←
        hash p (
          as_field domain
          ∷ from_u64 (length bytes % 2 ^ 64)
          ∷ from_u64 (length parts % 2 ^ 64)
          ∷ [])
    absorb state 0 parts

  unfoldable pub matcher_fee_recipient_commitment :
      OrchardReceiverBytes → Option RecipientCommitment
  unfolding canonical_bytes_commitment
  matcher_fee_recipient_commitment receiver = do
    h ← canonical_bytes_commitment fee_recipient_v1 receiver.as_bytes
    some (record { value = h })

  unfoldable pub trade_commitment_parts : TradeIntent → Option TradeCommitmentParts
  unfolding asset_commitment fee_commitment hash
  trade_commitment_parts intent = do
    offered ← asset_commitment intent.offered_asset
    requested ← asset_commitment intent.requested_asset
    fee ← fee_commitment intent.matcher_fee
    part_a ← hash p (
        as_field trade_a_v1
        ∷ offered.value
        ∷ from_u64 intent.offered_amount.get
        ∷ requested.value
        ∷ [])
    part_b ← hash p (
        as_field trade_b_v1
        ∷ from_u64 intent.requested_amount.get
        ∷ intent.recipient_commitment.value
        ∷ intent.policy_root.value
        ∷ [])
    meta ← hash p (
        as_field trade_meta_v1
        ∷ fee.value
        ∷ from_u64 intent.nonce.get
        ∷ from_u64 intent.expiry.get
        ∷ [])
    commitment ← hash p (as_field trade_v1 ∷ part_a ∷ part_b ∷ meta ∷ [])
    some (record {
      offered_asset_commitment = offered;
      requested_asset_commitment = requested;
      fee_commitment = fee;
      trade_part_a = record { value = part_a };
      trade_part_b = record { value = part_b };
      trade_meta = record { value = meta };
      trade_commitment = record { value = commitment };
    })

  unfoldable pub trade_commitment_v1 : TradeIntent → Option TradeCommitment
  unfolding trade_commitment_parts
  trade_commitment_v1 intent = do parts ← trade_commitment_parts intent; some parts.trade_commitment

  unfoldable pub verify_trade_commitment :
      TradeIntent → TradeCommitment → Option (Result (Unit {0}))
  unfolding trade_commitment_v1 to_decimal_string
  verify_trade_commitment intent expected = do
    actual ← trade_commitment_v1 intent
    some (
        if not (actual == expected)
        then err (
            commitment_mismatch (to_decimal_string expected.value) (to_decimal_string actual.value))
        else ok tt)
