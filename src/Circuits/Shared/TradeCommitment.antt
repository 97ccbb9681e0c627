-- ===== src/Circuits/Shared/TradeCommitment.antt =====
-- circuits/shared/trade-commitment-v1.js: `computeAssetCommitment` and `computeTrade`. The hash is that
-- of `createHasher`, a parameter.
pub mod Agreement
use zwa_protocol.Prelude.{ℕ, Option, some, List, [], ◌∷◌, ◌>>=◌}
use zwa_protocol.Prelude.Int.{ℤ, pos}
use zwa_protocol.Circuits.Shared.BigInts.{asset_id_to_limbs, assert_u64, assert_field}

-- The fields of `computeTrade`, the asset bases as text.
pub record TradeFields : Type 0 where
  pub offered_asset_base : List ℕ
  pub requested_asset_base : List ℕ
  pub offered_amount : ℤ
  pub requested_amount : ℤ
  pub recipient_commitment : ℤ
  pub policy_root : ℤ
  pub matcher_fee_amount : ℤ
  pub matcher_fee_recipient_commitment : ℤ
  pub nonce : ℤ
  pub expiry : ℤ

-- What `computeTrade` returns.
pub record ComputedTrade : Type 0 where
  pub offered_asset_commitment : ℤ
  pub requested_asset_commitment : ℤ
  pub fee_commitment : ℤ
  pub trade_part_a : ℤ
  pub trade_part_b : ℤ
  pub trade_meta : ℤ
  pub trade_commitment : ℤ

module _ (hash : List ℤ → Option ℤ) where
  unfoldable pub compute_asset_commitment : List ℕ → Option ℤ
  unfolding asset_id_to_limbs
  compute_asset_commitment hex = do
    limbs ← asset_id_to_limbs hex
    hash (pos 18387490596738609 ∷ limbs.hi ∷ limbs.lo ∷ [])

  unfoldable pub compute_trade : TradeFields → Option ComputedTrade
  unfolding compute_asset_commitment assert_u64 assert_field
  compute_trade fields = do
    offered ← compute_asset_commitment fields.offered_asset_base
    requested ← compute_asset_commitment fields.requested_asset_base
    fee_amount ← assert_u64 fields.matcher_fee_amount
    fee_recipient ← assert_field fields.matcher_fee_recipient_commitment
    fee ← hash (pos 301809882673 ∷ pos 5915971 ∷ fee_amount ∷ fee_recipient ∷ [])
    offered_amount ← assert_u64 fields.offered_amount
    part_a ← hash (pos 23734351151715889 ∷ offered ∷ offered_amount ∷ requested ∷ [])
    requested_amount ← assert_u64 fields.requested_amount
    recipient ← assert_field fields.recipient_commitment
    policy ← assert_field fields.policy_root
    part_b ← hash (pos 23734351168493105 ∷ requested_amount ∷ recipient ∷ policy ∷ [])
    nonce ← assert_u64 fields.nonce
    expiry ← assert_u64 fields.expiry
    meta ← hash (pos 23734351353042481 ∷ fee ∷ nonce ∷ expiry ∷ [])
    commitment ← hash (pos 6075990608753677873 ∷ part_a ∷ part_b ∷ meta ∷ [])
    some (record {
      offered_asset_commitment = offered;
      requested_asset_commitment = requested;
      fee_commitment = fee;
      trade_part_a = part_a;
      trade_part_b = part_b;
      trade_meta = meta;
      trade_commitment = commitment;
    })
