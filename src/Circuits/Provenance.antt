-- ===== src/Circuits/Provenance.antt =====
-- circuits/provenance/rwa_trade_provenance_v1.circom: the signals of the provenance circuit and its
-- constraints.
pub mod Soundness
pub mod Completeness
pub mod Issuances
pub mod Issued
pub mod Prover
pub mod Issuer
mod Runs
use zwa_protocol.Prelude.{ℕ, ◌≡◌, List, [], ◌∷◌}
use zwa_protocol.Protocol.Field.{FieldElement, from_u64}
use zwa_protocol.Circuits.Templates.{Templates}

abbrev pub domain_asset_v1 : FieldElement
domain_asset_v1 = from_u64 18387490596738609

abbrev pub domain_issuance_meta_v1 : FieldElement
domain_issuance_meta_v1 = from_u64 5283658379176460593

abbrev pub domain_issuance_v1 : FieldElement
domain_issuance_v1 = from_u64 20639290677876273

abbrev pub domain_fee_v1 : FieldElement
domain_fee_v1 = from_u64 301809882673

abbrev pub domain_trade_a_v1 : FieldElement
domain_trade_a_v1 = from_u64 23734351151715889

abbrev pub domain_trade_b_v1 : FieldElement
domain_trade_b_v1 = from_u64 23734351168493105

abbrev pub domain_trade_meta_v1 : FieldElement
domain_trade_meta_v1 = from_u64 23734351353042481

abbrev pub domain_trade_v1 : FieldElement
domain_trade_v1 = from_u64 6075990608753677873

abbrev pub zec_asset_tag : FieldElement
zec_asset_tag = from_u64 5915971

-- `RwaTradeProvenanceV1(3)`.
abbrev pub merkle_depth : ℕ
merkle_depth = 3

-- The public signals.
pub record PublicSignals : Type 0 where
  pub authorized_issuance_root : FieldElement
  pub trade_commitment : FieldElement

-- The private signals.
pub record PrivateSignals : Type 0 where
  pub issuer_commitment : FieldElement
  pub offered_asset_hi : FieldElement
  pub offered_asset_lo : FieldElement
  pub series_commitment : FieldElement
  pub policy_root : FieldElement
  pub issuance_nonce : FieldElement
  pub issuance_merkle_siblings : List FieldElement
  pub issuance_merkle_path_indices : List FieldElement
  pub offered_amount : FieldElement
  pub requested_asset_hi : FieldElement
  pub requested_asset_lo : FieldElement
  pub requested_amount : FieldElement
  pub recipient_commitment : FieldElement
  pub matcher_fee_amount : FieldElement
  pub matcher_fee_recipient_commitment : FieldElement
  pub nonce : FieldElement
  pub expiry : FieldElement

-- The outputs of the hashers.
pub record Hashes : Type 0 where
  pub offered_asset : FieldElement
  pub issuance_meta : FieldElement
  pub issuance_leaf : FieldElement
  pub requested_asset : FieldElement
  pub fee : FieldElement
  pub trade_part_a : FieldElement
  pub trade_part_b : FieldElement
  pub trade_meta : FieldElement

-- What each hasher is given.
module _ (w : PrivateSignals) (h : Hashes) where
  abbrev pub offered_asset_hasher : List FieldElement
  offered_asset_hasher = domain_asset_v1 ∷ w.offered_asset_hi ∷ w.offered_asset_lo ∷ []

  abbrev pub issuance_meta_hasher : List FieldElement
  issuance_meta_hasher =
      domain_issuance_meta_v1 ∷ w.series_commitment ∷ w.policy_root ∷ w.issuance_nonce ∷ []

  abbrev pub issuance_leaf_hasher : List FieldElement
  issuance_leaf_hasher =
      domain_issuance_v1 ∷ w.issuer_commitment ∷ h.offered_asset ∷ h.issuance_meta ∷ []

  abbrev pub requested_asset_hasher : List FieldElement
  requested_asset_hasher = domain_asset_v1 ∷ w.requested_asset_hi ∷ w.requested_asset_lo ∷ []

  abbrev pub fee_hasher : List FieldElement
  fee_hasher =
      domain_fee_v1 ∷ zec_asset_tag ∷ w.matcher_fee_amount ∷ w.matcher_fee_recipient_commitment ∷ []

  abbrev pub trade_part_a_hasher : List FieldElement
  trade_part_a_hasher =
      domain_trade_a_v1 ∷ h.offered_asset ∷ w.offered_amount ∷ h.requested_asset ∷ []

  abbrev pub trade_part_b_hasher : List FieldElement
  trade_part_b_hasher =
      domain_trade_b_v1 ∷ w.requested_amount ∷ w.recipient_commitment ∷ w.policy_root ∷ []

  abbrev pub trade_meta_hasher : List FieldElement
  trade_meta_hasher = domain_trade_meta_v1 ∷ h.fee ∷ w.nonce ∷ w.expiry ∷ []

  abbrev pub trade_hasher : List FieldElement
  trade_hasher = domain_trade_v1 ∷ h.trade_part_a ∷ h.trade_part_b ∷ h.trade_meta ∷ []

-- The constraints.
pub record Satisfies (t : Templates) (x : PublicSignals) (w : PrivateSignals) (h : Hashes)
    : Type 0 where
  pub offered_asset_hi_range : t.Num2Bits 128 w.offered_asset_hi
  pub offered_asset_lo_range : t.Num2Bits 128 w.offered_asset_lo
  pub requested_asset_hi_range : t.Num2Bits 128 w.requested_asset_hi
  pub requested_asset_lo_range : t.Num2Bits 128 w.requested_asset_lo
  pub issuance_nonce_range : t.Num2Bits 64 w.issuance_nonce
  pub offered_amount_range : t.Num2Bits 64 w.offered_amount
  pub requested_amount_range : t.Num2Bits 64 w.requested_amount
  pub matcher_fee_amount_range : t.Num2Bits 64 w.matcher_fee_amount
  pub nonce_range : t.Num2Bits 64 w.nonce
  pub expiry_range : t.Num2Bits 64 w.expiry
  pub offered_asset_hash : t.PoseidonHash (offered_asset_hasher w h) h.offered_asset
  pub issuance_meta_hash : t.PoseidonHash (issuance_meta_hasher w h) h.issuance_meta
  pub issuance_leaf_hash : t.PoseidonHash (issuance_leaf_hasher w h) h.issuance_leaf
  pub issuance_membership :
      t.MerkleProof merkle_depth h.issuance_leaf x.authorized_issuance_root
        w.issuance_merkle_siblings w.issuance_merkle_path_indices
  pub requested_asset_hash : t.PoseidonHash (requested_asset_hasher w h) h.requested_asset
  pub fee_hash : t.PoseidonHash (fee_hasher w h) h.fee
  pub trade_part_a_hash : t.PoseidonHash (trade_part_a_hasher w h) h.trade_part_a
  pub trade_part_b_hash : t.PoseidonHash (trade_part_b_hasher w h) h.trade_part_b
  pub trade_meta_hash : t.PoseidonHash (trade_meta_hasher w h) h.trade_meta
  pub trade_hash : t.PoseidonHash (trade_hasher w h) x.trade_commitment
