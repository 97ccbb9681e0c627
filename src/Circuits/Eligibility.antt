-- ===== src/Circuits/Eligibility.antt =====
-- circuits/eligibility/rwa_investor_eligibility_v1.circom: the signals of the eligibility circuit and
-- its constraints. The templates of circomlib and of circuits/shared/zk-origin are a parameter.
pub mod Stages
pub mod Shown
pub mod Soundness
pub mod Signals
pub mod Completeness
pub mod Trees
pub mod Issued
pub mod Prover
pub mod Holder
pub mod Authority
mod Runs
use zwa_protocol.Prelude.{ℕ, ◌≡◌, ◌≤◌, ◌<◌, ◌^◌, ◌↔◌, some, List, [], ◌∷◌}
use zwa_protocol.Circuits.Templates.{Templates}
use zwa_protocol.Protocol.Field.{FieldElement, from_u64}
use zwa_protocol.Protocol.Field.Canonical.{value}
use zwa_protocol.Commitments.Poseidon.{LightPoseidon, hash}

abbrev pub domain_asset_v1 : FieldElement
domain_asset_v1 = from_u64 18387490596738609

abbrev pub domain_fee_v1 : FieldElement
domain_fee_v1 = from_u64 301809882673

abbrev pub domain_trade_a_v1 : FieldElement
domain_trade_a_v1 = from_u64 23734351151715889

abbrev pub domain_trade_b_v1 : FieldElement
domain_trade_b_v1 = from_u64 23734351168493105

abbrev pub domain_trade_meta_v1 : FieldElement
domain_trade_meta_v1 = from_u64 23734351353042481

abbrev pub domain_trade_v1 : FieldElement
domain_trade_v1 = from_u64 6075990608753677873

abbrev pub zec_asset_tag : FieldElement
zec_asset_tag = from_u64 5915971

abbrev pub domain_subject_v1 : FieldElement
domain_subject_v1 = from_u64 6004778564925477937

abbrev pub domain_receiver_v1 : FieldElement
domain_receiver_v1 = from_u64 5928218449365324337

abbrev pub domain_recipient_binding_v1 : FieldElement
domain_recipient_binding_v1 = from_u64 5927669780177634353

abbrev pub domain_credential_meta_v1 : FieldElement
domain_credential_meta_v1 = from_u64 4851015908287927361

abbrev pub domain_eligibility_policy_v1 : FieldElement
domain_eligibility_policy_v1 = from_u64 4993446657485917233

abbrev pub domain_credential_v2 : FieldElement
domain_credential_v2 = from_u64 18949280892933682

-- `RwaInvestorEligibilityV1(3, 3)`.
abbrev pub credential_depth : ℕ
credential_depth = 3

abbrev pub policy_depth : ℕ
policy_depth = 3

-- The public signals.
pub record PublicSignals : Type 0 where
  pub active_credential_root : FieldElement
  pub trade_commitment : FieldElement

-- The private signals.
pub record PrivateSignals : Type 0 where
  pub subject_secret : FieldElement
  pub credential_authority_commitment : FieldElement
  pub investor_class : FieldElement
  pub jurisdiction : FieldElement
  pub credential_expiry : FieldElement
  pub credential_nonce : FieldElement
  pub credential_merkle_siblings : List FieldElement
  pub credential_merkle_path_indices : List FieldElement
  pub policy_root : FieldElement
  pub allowed_investor_class : FieldElement
  pub allowed_jurisdiction : FieldElement
  pub policy_merkle_siblings : List FieldElement
  pub policy_merkle_path_indices : List FieldElement
  pub receiver_limb0 : FieldElement
  pub receiver_limb1 : FieldElement
  pub receiver_limb2 : FieldElement
  pub offered_asset_hi : FieldElement
  pub offered_asset_lo : FieldElement
  pub offered_amount : FieldElement
  pub requested_asset_hi : FieldElement
  pub requested_asset_lo : FieldElement
  pub requested_amount : FieldElement
  pub matcher_fee_amount : FieldElement
  pub matcher_fee_recipient_commitment : FieldElement
  pub nonce : FieldElement
  pub expiry : FieldElement

-- The outputs of the hashers.
pub record Hashes : Type 0 where
  pub subject : FieldElement
  pub receiver : FieldElement
  pub credential_meta : FieldElement
  pub credential_leaf : FieldElement
  pub recipient : FieldElement
  pub policy_leaf : FieldElement
  pub offered_asset : FieldElement
  pub requested_asset : FieldElement
  pub fee : FieldElement
  pub trade_part_a : FieldElement
  pub trade_part_b : FieldElement
  pub trade_meta : FieldElement

-- What each hasher is given.
module _ (w : PrivateSignals) (h : Hashes) where
  abbrev pub subject_hasher : List FieldElement
  subject_hasher = domain_subject_v1 ∷ w.subject_secret ∷ []

  abbrev pub receiver_hasher : List FieldElement
  receiver_hasher = domain_receiver_v1 ∷ w.receiver_limb0 ∷ w.receiver_limb1 ∷ w.receiver_limb2 ∷ []

  abbrev pub credential_meta_hasher : List FieldElement
  credential_meta_hasher =
      domain_credential_meta_v1 ∷ w.investor_class ∷ w.jurisdiction ∷ w.credential_expiry ∷ []

  abbrev pub credential_leaf_hasher : List FieldElement
  credential_leaf_hasher =
      domain_credential_v2 ∷ w.credential_authority_commitment ∷ h.subject ∷ h.credential_meta
      ∷ w.credential_nonce ∷ h.receiver ∷ []

  abbrev pub recipient_hasher : List FieldElement
  recipient_hasher = domain_recipient_binding_v1 ∷ h.subject ∷ h.receiver ∷ []

  abbrev pub policy_leaf_hasher : List FieldElement
  policy_leaf_hasher =
      domain_eligibility_policy_v1 ∷ w.allowed_investor_class ∷ w.allowed_jurisdiction ∷ []

  abbrev pub offered_asset_hasher : List FieldElement
  offered_asset_hasher = domain_asset_v1 ∷ w.offered_asset_hi ∷ w.offered_asset_lo ∷ []

  abbrev pub requested_asset_hasher : List FieldElement
  requested_asset_hasher = domain_asset_v1 ∷ w.requested_asset_hi ∷ w.requested_asset_lo ∷ []

  abbrev pub fee_hasher : List FieldElement
  fee_hasher =
      domain_fee_v1 ∷ zec_asset_tag ∷ w.matcher_fee_amount ∷ w.matcher_fee_recipient_commitment ∷ []

  abbrev pub trade_part_a_hasher : List FieldElement
  trade_part_a_hasher =
      domain_trade_a_v1 ∷ h.offered_asset ∷ w.offered_amount ∷ h.requested_asset ∷ []

  abbrev pub trade_part_b_hasher : List FieldElement
  trade_part_b_hasher = domain_trade_b_v1 ∷ w.requested_amount ∷ h.recipient ∷ w.policy_root ∷ []

  abbrev pub trade_meta_hasher : List FieldElement
  trade_meta_hasher = domain_trade_meta_v1 ∷ h.fee ∷ w.nonce ∷ w.expiry ∷ []

  abbrev pub trade_hasher : List FieldElement
  trade_hasher = domain_trade_v1 ∷ h.trade_part_a ∷ h.trade_part_b ∷ h.trade_meta ∷ []

-- The constraints.
pub record Satisfies (t : Templates) (x : PublicSignals) (w : PrivateSignals) (h : Hashes)
    : Type 0 where
  pub offered_asset_hi_range : t.Num2Bits 128 w.offered_asset_hi
  pub offered_asset_lo_range : t.Num2Bits 128 w.offered_asset_lo
  pub requested_asset_hi_range : t.Num2Bits 128 w.requested_asset_hi
  pub requested_asset_lo_range : t.Num2Bits 128 w.requested_asset_lo
  pub receiver_limb0_range : t.Num2Bits 128 w.receiver_limb0
  pub receiver_limb1_range : t.Num2Bits 128 w.receiver_limb1
  pub receiver_limb2_range : t.Num2Bits 88 w.receiver_limb2
  pub investor_class_range : t.Num2Bits 8 w.investor_class
  pub allowed_investor_class_range : t.Num2Bits 8 w.allowed_investor_class
  pub jurisdiction_range : t.Num2Bits 16 w.jurisdiction
  pub allowed_jurisdiction_range : t.Num2Bits 16 w.allowed_jurisdiction
  pub credential_expiry_range : t.Num2Bits 64 w.credential_expiry
  pub credential_nonce_range : t.Num2Bits 64 w.credential_nonce
  pub offered_amount_range : t.Num2Bits 64 w.offered_amount
  pub requested_amount_range : t.Num2Bits 64 w.requested_amount
  pub matcher_fee_amount_range : t.Num2Bits 64 w.matcher_fee_amount
  pub nonce_range : t.Num2Bits 64 w.nonce
  pub expiry_range : t.Num2Bits 64 w.expiry
  pub same_class : w.investor_class ≡ w.allowed_investor_class
  pub same_jurisdiction : w.jurisdiction ≡ w.allowed_jurisdiction
  pub subject_hash : t.PoseidonHash (subject_hasher w h) h.subject
  pub receiver_hash : t.PoseidonHash (receiver_hasher w h) h.receiver
  pub credential_meta_hash : t.PoseidonHash (credential_meta_hasher w h) h.credential_meta
  pub credential_leaf_hash : t.PoseidonHash (credential_leaf_hasher w h) h.credential_leaf
  pub credential_membership :
      t.MerkleProof credential_depth h.credential_leaf x.active_credential_root
        w.credential_merkle_siblings w.credential_merkle_path_indices
  pub recipient_hash : t.PoseidonHash (recipient_hasher w h) h.recipient
  pub policy_leaf_hash : t.PoseidonHash (policy_leaf_hasher w h) h.policy_leaf
  pub policy_membership :
      t.MerkleProof policy_depth h.policy_leaf w.policy_root w.policy_merkle_siblings
        w.policy_merkle_path_indices
  pub valid_through_trade : t.GreaterEqThan 64 w.credential_expiry w.expiry
  pub offered_asset_hash : t.PoseidonHash (offered_asset_hasher w h) h.offered_asset
  pub requested_asset_hash : t.PoseidonHash (requested_asset_hasher w h) h.requested_asset
  pub fee_hash : t.PoseidonHash (fee_hasher w h) h.fee
  pub trade_part_a_hash : t.PoseidonHash (trade_part_a_hasher w h) h.trade_part_a
  pub trade_part_b_hash : t.PoseidonHash (trade_part_b_hasher w h) h.trade_part_b
  pub trade_meta_hash : t.PoseidonHash (trade_meta_hasher w h) h.trade_meta
  pub trade_hash : t.PoseidonHash (trade_hasher w h) x.trade_commitment
