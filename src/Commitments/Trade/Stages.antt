-- ===== src/Commitments/Trade/Stages.antt =====
-- The schema at the top of crates/commitments/src/trade.rs, as equations between the parts of a
-- trade commitment.
use zwa_protocol.Prelude.{◌≡◌, ◌≤◌, refl, some, List, [], ◌∷◌, arith, length}
use zwa_protocol.Protocol.Field.{FieldElement, from_u64, from_u128}
use zwa_protocol.Protocol.Field.Canonical.{IsCanonical}
use zwa_protocol.Protocol.Bytes.{AssetBaseBytes}
use zwa_protocol.Protocol.Values.{MatcherFee}
use zwa_protocol.Protocol.Intent.{TradeIntent}
use zwa_protocol.Commitments.AssetBase.{encode_asset_base}
use zwa_protocol.Commitments.Domain.{
  asset_v1, fee_v1, trade_a_v1, trade_b_v1, trade_meta_v1, trade_v1, zec_asset_tag, as_field,
}
use zwa_protocol.Commitments.Poseidon.{LightPoseidon, IsCircom, hash, hash_total}
use zwa_protocol.Commitments.Trade
use zwa_protocol.Commitments.Trade.{TradeCommitmentParts}

abbrev pub asset_inputs : AssetBaseBytes → List FieldElement
asset_inputs asset =
    as_field asset_v1
    ∷ from_u128 (encode_asset_base asset).hi
    ∷ from_u128 (encode_asset_base asset).lo
    ∷ []

abbrev pub fee_inputs : MatcherFee → List FieldElement
fee_inputs fee =
    as_field fee_v1
    ∷ as_field zec_asset_tag
    ∷ from_u64 fee.amount.get
    ∷ fee.recipient_commitment.value
    ∷ []

module _ (p : LightPoseidon) where
  -- The schema.
  pub record Stages (intent : TradeIntent) (parts : TradeCommitmentParts) : Type 0 where
    pub offered :
        hash p (asset_inputs intent.offered_asset) ≡ some parts.offered_asset_commitment.value
    pub requested :
        hash p (asset_inputs intent.requested_asset) ≡ some parts.requested_asset_commitment.value
    pub fee : hash p (fee_inputs intent.matcher_fee) ≡ some parts.fee_commitment.value
    pub part_a :
        hash p (
          as_field trade_a_v1
          ∷ parts.offered_asset_commitment.value
          ∷ from_u64 intent.offered_amount.get
          ∷ parts.requested_asset_commitment.value
          ∷ [])
        ≡ some parts.trade_part_a.value
    pub part_b :
        hash p (
          as_field trade_b_v1
          ∷ from_u64 intent.requested_amount.get
          ∷ intent.recipient_commitment.value
          ∷ intent.policy_root.value
          ∷ [])
        ≡ some parts.trade_part_b.value
    pub meta :
        hash p (
          as_field trade_meta_v1
          ∷ parts.fee_commitment.value
          ∷ from_u64 intent.nonce.get
          ∷ from_u64 intent.expiry.get
          ∷ [])
        ≡ some parts.trade_meta.value
    pub commitment :
        hash p (
          as_field trade_v1
          ∷ parts.trade_part_a.value
          ∷ parts.trade_part_b.value
          ∷ parts.trade_meta.value
          ∷ [])
        ≡ some parts.trade_commitment.value

-- For a hasher as `IsCircom` says: the staging of a trade commitment never panics,
-- and its parts are those of the schema.
pub trade_commitment_parts-Stages :
    (p : LightPoseidon)
    → IsCircom p
    → (intent : TradeIntent)
    → (parts : TradeCommitmentParts) × (Trade.trade_commitment_parts p intent ≡ some parts)
      × Stages p intent parts
unfolding Trade.trade_commitment_parts Trade.asset_commitment Trade.fee_commitment
trade_commitment_parts-Stages p c intent =
    let total : (inputs : List FieldElement)
        → 1 ≤ length inputs
        → length inputs ≤ 12
        → (e : FieldElement) × (hash p inputs ≡ some e) × IsCanonical e =
      hash_total p c in
    let offered = encode_asset_base intent.offered_asset in
    let requested = encode_asset_base intent.requested_asset in
    let (o, ho, _) =
      total (as_field asset_v1 ∷ from_u128 offered.hi ∷ from_u128 offered.lo ∷ []) (omega arith)
        (omega arith) in
    let (r, hr, _) =
      total (as_field asset_v1 ∷ from_u128 requested.hi ∷ from_u128 requested.lo ∷ []) (omega arith)
        (omega arith) in
    let (f, hf, _) =
      total
        (as_field fee_v1
          ∷ as_field zec_asset_tag
          ∷ from_u64 intent.matcher_fee.amount.get
          ∷ intent.matcher_fee.recipient_commitment.value
          ∷ [])
        (omega arith) (omega arith) in
    let (a, ha, _) =
      total (as_field trade_a_v1 ∷ o ∷ from_u64 intent.offered_amount.get ∷ r ∷ []) (omega arith)
        (omega arith) in
    let (b, hb, _) =
      total
        (as_field trade_b_v1
          ∷ from_u64 intent.requested_amount.get
          ∷ intent.recipient_commitment.value
          ∷ intent.policy_root.value
          ∷ [])
        (omega arith) (omega arith) in
    let (m, hm, _) =
      total
        (as_field trade_meta_v1 ∷ f ∷ from_u64 intent.nonce.get ∷ from_u64 intent.expiry.get ∷ [])
        (omega arith) (omega arith) in
    let (t, ht, _) = total (as_field trade_v1 ∷ a ∷ b ∷ m ∷ []) (omega arith) (omega arith) in
    let parts : TradeCommitmentParts = record {
      offered_asset_commitment = record { value = o };
      requested_asset_commitment = record { value = r };
      fee_commitment = record { value = f };
      trade_part_a = record { value = a };
      trade_part_b = record { value = b };
      trade_meta = record { value = m };
      trade_commitment = record { value = t };
    } in
    (
      parts,
      rw (ho, hr, hf, ha, hb, hm, ht) refl,
      record {
        offered = ho;
        requested = hr;
        fee = hf;
        part_a = ha;
        part_b = hb;
        meta = hm;
        commitment = ht;
      },
    )
