-- ===== src/Circuits/Shared/TradeCommitment/Agreement.antt =====
-- That circuits/shared/trade-commitment-v1.js computes the trade commitment of
-- crates/commitments/src/trade.rs.
use zwa_protocol.Prelude.{
  ℕ, ◌≡◌, ◌<◌, refl, sym, ap, ◌∙◌, Option, some, List, [], ◌∷◌, map, arith, >>=_of,
}
use zwa_protocol.Prelude.Int.{ℤ, pos}
use zwa_protocol.Prelude.Words.{IsU64, IsU128}
use zwa_protocol.Protocol.Error.{ok}
use zwa_protocol.Protocol.Field.{FieldElement, from_u64, from_u128}
use zwa_protocol.Protocol.Field.Canonical.{value, IsCanonical, from_u64-value, from_u128-value}
use zwa_protocol.Protocol.Bytes.{AssetBaseBytes, asset_from_hex}
use zwa_protocol.Protocol.Intent.{TradeIntent}
use zwa_protocol.Commitments.Domain.{as_field, tag}
use zwa_protocol.Commitments.AssetBase.{encode_asset_base}
use zwa_protocol.Commitments.Poseidon.{LightPoseidon, IsCircom, hash}
use zwa_protocol.Commitments.Trade
use zwa_protocol.Commitments.Trade.{TradeCommitmentParts}
use zwa_protocol.Commitments.Trade.Stages.{Stages, asset_inputs}
use zwa_protocol.Commitments.Trade.Binding.{IsIntent, staged, encode_asset_base-IsU128}
use zwa_protocol.Circuits.Shared.BigInts.{assert_u64, assert_field, field_modulus}
use zwa_protocol.Circuits.Shared.BigInts.Limbs.{asset_id_to_limbs-encode_asset_base}
use zwa_protocol.Circuits.Shared.TradeCommitment.{
  TradeFields, ComputedTrade, compute_asset_commitment, compute_trade,
}

-- A scalar as a BigInt.
abbrev pub big : FieldElement → ℤ
big e = pos (value e)

-- What light-poseidon documents of circomlibjs: where it hashes some scalars, `createHasher` gives the
-- same hash of them as BigInts.
pub record IsCircomlib (p : LightPoseidon) (hasher : List ℤ → Option ℤ) : Type 0 where
  pub agrees :
      (inputs : List FieldElement) (e : FieldElement)
      → hash p inputs ≡ some e
      → hasher (map big inputs) ≡ some (big e)

-- The canonical scalars of an intent, which the types of the crates guarantee.
pub record HasScalars (intent : TradeIntent) : Type 0 where
  pub recipient : IsCanonical intent.recipient_commitment.value
  pub policy : IsCanonical intent.policy_root.value
  pub fee_recipient : IsCanonical intent.matcher_fee.recipient_commitment.value

-- The fields of an intent, with the two asset bases as text.
abbrev pub fields_of : TradeIntent → List ℕ → List ℕ → TradeFields
fields_of intent offered requested = record {
  offered_asset_base = offered;
  requested_asset_base = requested;
  offered_amount = pos intent.offered_amount.get;
  requested_amount = pos intent.requested_amount.get;
  recipient_commitment = big intent.recipient_commitment.value;
  policy_root = big intent.policy_root.value;
  matcher_fee_amount = pos intent.matcher_fee.amount.get;
  matcher_fee_recipient_commitment = big intent.matcher_fee.recipient_commitment.value;
  nonce = pos intent.nonce.get;
  expiry = pos intent.expiry.get;
}

abbrev pub computed : TradeCommitmentParts → ComputedTrade
computed parts = record {
  offered_asset_commitment = big parts.offered_asset_commitment.value;
  requested_asset_commitment = big parts.requested_asset_commitment.value;
  fee_commitment = big parts.fee_commitment.value;
  trade_part_a = big parts.trade_part_a.value;
  trade_part_b = big parts.trade_part_b.value;
  trade_meta = big parts.trade_meta.value;
  trade_commitment = big parts.trade_commitment.value;
}

pub assert_u64_of : (v : ℕ) → IsU64 v → assert_u64 (pos v) ≡ some (pos v)
unfolding assert_u64
assert_u64_of v h = ground arith

pub assert_field_of : (e : FieldElement) → IsCanonical e → assert_field (big e) ≡ some (big e)
unfolding assert_field
assert_field_of e h = let below : value e < field_modulus = h.reduced in ground arith

pub big_u64 : (v : ℕ) → IsU64 v → big (from_u64 v) ≡ pos v
big_u64 v h = ap pos (from_u64-value v h).1

pub big_u128 : (v : ℕ) → IsU128 v → big (from_u128 v) ≡ pos v
big_u128 v h = ap pos (from_u128-value v h).1

module _ (p : LightPoseidon) (hasher : List ℤ → Option ℤ) (same : IsCircomlib p hasher) where
  -- One stage.
  pub stage :
      (inputs : List FieldElement) (e : FieldElement) (values : List ℤ)
      → hash p inputs ≡ some e
      → map big inputs ≡ values
      → hasher values ≡ some (big e)
  stage inputs e values h k = ap hasher (sym k) ∙ same.agrees inputs e h

  pub compute_asset_commitment_of :
      (text : List ℕ) (a : AssetBaseBytes) (e : FieldElement)
      → asset_from_hex text ≡ ok a
      → IsU128 (encode_asset_base a).hi × IsU128 (encode_asset_base a).lo
      → hash p (asset_inputs a) ≡ some e
      → compute_asset_commitment hasher text ≡ some (big e)
  unfolding compute_asset_commitment as_field tag
  compute_asset_commitment_of text a e h (high, low) k =
      >>=_of _ (asset_id_to_limbs-encode_asset_base text a h) (
        stage (asset_inputs a) e _ k (λ i.
          big_u64 18387490596738609 (omega arith) i
          ∷ big_u128 (encode_asset_base a).hi high i
          ∷ big_u128 (encode_asset_base a).lo low i
          ∷ []))

-- The stages after the asset commitments, on BigInts.
record BigStages (hasher : List ℤ → Option ℤ) (intent : TradeIntent) (parts : TradeCommitmentParts)
    : Type 0 where
  fee :
      hasher (
        pos 301809882673
        ∷ pos 5915971
        ∷ pos intent.matcher_fee.amount.get
        ∷ big intent.matcher_fee.recipient_commitment.value
        ∷ [])
      ≡ some (big parts.fee_commitment.value)
  part_a :
      hasher (
        pos 23734351151715889
        ∷ big parts.offered_asset_commitment.value
        ∷ pos intent.offered_amount.get
        ∷ big parts.requested_asset_commitment.value
        ∷ [])
      ≡ some (big parts.trade_part_a.value)
  part_b :
      hasher (
        pos 23734351168493105
        ∷ pos intent.requested_amount.get
        ∷ big intent.recipient_commitment.value
        ∷ big intent.policy_root.value
        ∷ [])
      ≡ some (big parts.trade_part_b.value)
  meta :
      hasher (
        pos 23734351353042481
        ∷ big parts.fee_commitment.value
        ∷ pos intent.nonce.get
        ∷ pos intent.expiry.get
        ∷ [])
      ≡ some (big parts.trade_meta.value)
  commitment :
      hasher (
        pos 6075990608753677873
        ∷ big parts.trade_part_a.value
        ∷ big parts.trade_part_b.value
        ∷ big parts.trade_meta.value
        ∷ [])
      ≡ some (big parts.trade_commitment.value)

big_stages :
    (p : LightPoseidon) (hasher : List ℤ → Option ℤ)
    → IsCircomlib p hasher
    → (intent : TradeIntent) (parts : TradeCommitmentParts) → IsIntent intent
    → Stages p intent parts
    → BigStages hasher intent parts
unfolding as_field tag
big_stages p hasher same intent parts hi st = record {
  fee = stage p hasher same _ _ _ st.fee (λ i.
      big_u64 301809882673 (omega arith) i
      ∷ big_u64 5915971 (omega arith) i
      ∷ big_u64 intent.matcher_fee.amount.get hi.fee_amount i
      ∷ big intent.matcher_fee.recipient_commitment.value
      ∷ []);
  part_a = stage p hasher same _ _ _ st.part_a (λ i.
      big_u64 23734351151715889 (omega arith) i
      ∷ big parts.offered_asset_commitment.value
      ∷ big_u64 intent.offered_amount.get hi.offered_amount i
      ∷ big parts.requested_asset_commitment.value
      ∷ []);
  part_b = stage p hasher same _ _ _ st.part_b (λ i.
      big_u64 23734351168493105 (omega arith) i
      ∷ big_u64 intent.requested_amount.get hi.requested_amount i
      ∷ big intent.recipient_commitment.value
      ∷ big intent.policy_root.value
      ∷ []);
  meta = stage p hasher same _ _ _ st.meta (λ i.
      big_u64 23734351353042481 (omega arith) i
      ∷ big parts.fee_commitment.value
      ∷ big_u64 intent.nonce.get hi.nonce i
      ∷ big_u64 intent.expiry.get hi.expiry i
      ∷ []);
  commitment = stage p hasher same _ _ _ st.commitment (λ i.
      big_u64 6075990608753677873 (omega arith) i
      ∷ big parts.trade_part_a.value
      ∷ big parts.trade_part_b.value
      ∷ big parts.trade_meta.value
      ∷ []);
}

-- For a hasher as `IsCircom` says and one on BigInts that agrees with it: of a well-formed intent, and
-- any two texts that the crates read as its asset bases, `computeTrade` returns the seven commitments
-- that `trade_commitment_parts` gives, as BigInts.
pub compute_trade-trade_commitment_parts :
    (p : LightPoseidon)
    → IsCircom p
    → (hasher : List ℤ → Option ℤ) → IsCircomlib p hasher
    → (intent : TradeIntent) → IsIntent intent
    → HasScalars intent
    → (parts : TradeCommitmentParts) → Trade.trade_commitment_parts p intent ≡ some parts
    → (offered requested : List ℕ) → asset_from_hex offered ≡ ok intent.offered_asset
    → asset_from_hex requested ≡ ok intent.requested_asset
    → compute_trade hasher (fields_of intent offered requested) ≡ some (computed parts)
unfolding compute_trade
compute_trade-trade_commitment_parts p circom hasher same intent hi hs parts ei offered requested eo
      er =
    let st : Stages p intent parts = staged p circom intent parts ei in
    let b : BigStages hasher intent parts = big_stages p hasher same intent parts hi st in
    >>=_of _
      (compute_asset_commitment_of p hasher same offered intent.offered_asset _ eo
        (encode_asset_base-IsU128 intent.offered_asset hi.offered_asset) st.offered)
      (>>=_of _
        (compute_asset_commitment_of p hasher same requested intent.requested_asset _ er
          (encode_asset_base-IsU128 intent.requested_asset hi.requested_asset) st.requested)
        (>>=_of _ (assert_u64_of _ hi.fee_amount) (
          >>=_of _ (assert_field_of _ hs.fee_recipient) (
            >>=_of _ b.fee (
              >>=_of _ (assert_u64_of _ hi.offered_amount) (
                >>=_of _ b.part_a (
                  >>=_of _ (assert_u64_of _ hi.requested_amount) (
                    >>=_of _ (assert_field_of _ hs.recipient) (
                      >>=_of _ (assert_field_of _ hs.policy) (
                        >>=_of _ b.part_b (
                          >>=_of _ (assert_u64_of _ hi.nonce) (
                            >>=_of _ (assert_u64_of _ hi.expiry)
                              (>>=_of _ b.meta (>>=_of _ b.commitment refl))))))))))))))
