-- ===== src/Circuits/Provenance/Completeness.antt =====
-- The signals of circuits/provenance/rwa_trade_provenance_v1.circom that an issuance and an intent of
-- the crates give.
use zwa_protocol.Prelude.{ℕ, ◌≡◌, some, List, [], ◌∷◌, arith}
use zwa_protocol.Prelude.Words.{IsU64}
use zwa_protocol.Protocol.Field.{FieldElement, from_u64, from_u128}
use zwa_protocol.Protocol.Intent.{TradeIntent}
use zwa_protocol.Commitments.AssetBase.{encode_asset_base}
use zwa_protocol.Commitments.Domain.{as_field, tag}
use zwa_protocol.Commitments.Poseidon.{LightPoseidon, IsCircom, hash}
use zwa_protocol.Commitments.Trade
use zwa_protocol.Commitments.Trade.{TradeCommitmentParts}
use zwa_protocol.Commitments.Trade.Binding.{IsIntent, staged, encode_asset_base-IsU128}
use zwa_protocol.Circuits.Templates.{Templates, IsLibrary}
use zwa_protocol.Circuits.Eligibility.Completeness.{narrow, wide}
use zwa_protocol.Circuits.Provenance.{
  PrivateSignals, Hashes, Satisfies, domain_issuance_meta_v1, domain_issuance_v1, merkle_depth,
}

-- What the holder of an asset knows of its issuance, and where its leaf stands in the tree.
pub record Issuance : Type 0 where
  pub issuer_commitment : FieldElement
  pub series_commitment : FieldElement
  pub issuance_nonce : ℕ
  pub merkle_siblings : List FieldElement
  pub merkle_path_indices : List FieldElement

-- The private signals of an issuance and the intent that offers its asset.
abbrev pub issued_signals : Issuance → TradeIntent → PrivateSignals
issued_signals issuance intent = record {
  issuer_commitment = issuance.issuer_commitment;
  offered_asset_hi = from_u128 (encode_asset_base intent.offered_asset).hi;
  offered_asset_lo = from_u128 (encode_asset_base intent.offered_asset).lo;
  series_commitment = issuance.series_commitment;
  policy_root = intent.policy_root.value;
  issuance_nonce = from_u64 issuance.issuance_nonce;
  issuance_merkle_siblings = issuance.merkle_siblings;
  issuance_merkle_path_indices = issuance.merkle_path_indices;
  offered_amount = from_u64 intent.offered_amount.get;
  requested_asset_hi = from_u128 (encode_asset_base intent.requested_asset).hi;
  requested_asset_lo = from_u128 (encode_asset_base intent.requested_asset).lo;
  requested_amount = from_u64 intent.requested_amount.get;
  recipient_commitment = intent.recipient_commitment.value;
  matcher_fee_amount = from_u64 intent.matcher_fee.amount.get;
  matcher_fee_recipient_commitment = intent.matcher_fee.recipient_commitment.value;
  nonce = from_u64 intent.nonce.get;
  expiry = from_u64 intent.expiry.get;
}

abbrev pub issued_hashes : FieldElement → FieldElement → TradeCommitmentParts → Hashes
issued_hashes described issuance_leaf parts = record {
  offered_asset = parts.offered_asset_commitment.value;
  issuance_meta = described;
  issuance_leaf = issuance_leaf;
  requested_asset = parts.requested_asset_commitment.value;
  fee = parts.fee_commitment.value;
  trade_part_a = parts.trade_part_a.value;
  trade_part_b = parts.trade_part_b.value;
  trade_meta = parts.trade_meta.value;
}

-- For a hasher as `IsCircom` says and templates as `IsLibrary` says: where an issuance with the asset
-- commitment of an intent's offered asset and the policy root of the intent has a leaf under the
-- issuance root, the values of the two satisfy the constraints of the circuit for the trade
-- commitment of the intent. The intent is well-formed and the nonce of the issuance has 64 bits.
pub issued_signals-Satisfies :
    (p : LightPoseidon)
    → IsCircom p
    → (t : Templates) → IsLibrary p t
    → (issuance : Issuance) (intent : TradeIntent) → IsU64 issuance.issuance_nonce
    → IsIntent intent
    → (parts : TradeCommitmentParts) → Trade.trade_commitment_parts p intent ≡ some parts
    → (root described issuance_leaf : FieldElement)
    → hash p (
        domain_issuance_meta_v1
        ∷ issuance.series_commitment
        ∷ intent.policy_root.value
        ∷ from_u64 issuance.issuance_nonce
        ∷ [])
      ≡ some described
    → hash p (
        domain_issuance_v1 ∷ issuance.issuer_commitment ∷ parts.offered_asset_commitment.value
        ∷ described ∷ [])
      ≡ some issuance_leaf
    → t.MerkleProof merkle_depth issuance_leaf root issuance.merkle_siblings
        issuance.merkle_path_indices
    → Satisfies t
        (record {
          authorized_issuance_root = root;
          trade_commitment = parts.trade_commitment.value;
        })
        (issued_signals issuance intent)
        (issued_hashes described issuance_leaf parts)
unfolding as_field tag
issued_signals-Satisfies p circom t library issuance intent hn hi parts ei root described
      issuance_leaf of_meta of_leaf member =
    let st = staged p circom intent parts ei in
    let offered = encode_asset_base-IsU128 intent.offered_asset hi.offered_asset in
    let requested = encode_asset_base-IsU128 intent.requested_asset hi.requested_asset in
    record {
      offered_asset_hi_range = wide p t library 128 _ (omega arith) offered.0 offered.0;
      offered_asset_lo_range = wide p t library 128 _ (omega arith) offered.1 offered.1;
      requested_asset_hi_range = wide p t library 128 _ (omega arith) requested.0 requested.0;
      requested_asset_lo_range = wide p t library 128 _ (omega arith) requested.1 requested.1;
      issuance_nonce_range = word _ hn;
      offered_amount_range = word _ hi.offered_amount;
      requested_amount_range = word _ hi.requested_amount;
      matcher_fee_amount_range = word _ hi.fee_amount;
      nonce_range = word _ hi.nonce;
      expiry_range = word _ hi.expiry;
      offered_asset_hash = computed st.offered;
      issuance_meta_hash = computed of_meta;
      issuance_leaf_hash = computed of_leaf;
      issuance_membership = member;
      requested_asset_hash = computed st.requested;
      fee_hash = computed st.fee;
      trade_part_a_hash = computed st.part_a;
      trade_part_b_hash = computed st.part_b;
      trade_meta_hash = computed st.meta;
      trade_hash = computed st.commitment;
    }
  where
    word : (v : ℕ) → IsU64 v → t.Num2Bits 64 (from_u64 v)
    word v h = narrow p t library 64 v (omega arith) h h

    computed :
        {inputs : List FieldElement} {out : FieldElement}
        → hash p inputs ≡ some out
        → t.PoseidonHash inputs out
    computed {inputs} {out} e = (library.hashed inputs out).1 e
