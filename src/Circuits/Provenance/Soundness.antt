-- ===== src/Circuits/Provenance/Soundness.antt =====
-- What a witness of circuits/provenance/rwa_trade_provenance_v1.circom says of the intent of
-- crates/commitments/src/trade.rs.
use zwa_protocol.Prelude.{◌≡◌, ◌⊎◌, inl, inr, sym, ap, ◌∙◌, some, List, [], ◌∷◌}
use zwa_protocol.Protocol.Field.{FieldElement, from_u64, from_u128}
use zwa_protocol.Protocol.Intent.{TradeIntent}
use zwa_protocol.Commitments.Poseidon.{LightPoseidon, IsCircom, hash}
use zwa_protocol.Commitments.Trade
use zwa_protocol.Commitments.Trade.{TradeCommitmentParts}
use zwa_protocol.Commitments.Trade.Stages.{Stages}
use zwa_protocol.Commitments.Trade.Binding.{
  CollidesIn, hashed, same_inputs, three_of, four_of, staged,
}
use zwa_protocol.Commitments.AssetBase.{encode_asset_base}
use zwa_protocol.Circuits.Templates.{Templates, IsLibrary}
use zwa_protocol.Circuits.Provenance.{
  PublicSignals, PrivateSignals, Hashes, Satisfies, domain_issuance_meta_v1, domain_issuance_v1,
  merkle_depth, trade_hasher, trade_part_a_hasher, trade_part_b_hasher, trade_meta_hasher,
  offered_asset_hasher, requested_asset_hasher, fee_hasher,
}

-- What the proof is to show of an intent: its offered asset and policy root are those of an issuance
-- under the root, and the private trade fields are its own.
pub record Provenance (p : LightPoseidon) (t : Templates) (x : PublicSignals) (w : PrivateSignals)
    (intent : TradeIntent) (asset : FieldElement) : Type 0 where
  pub described : FieldElement
  pub issuance_leaf : FieldElement
  pub meta_hash :
      hash p (
        domain_issuance_meta_v1 ∷ w.series_commitment ∷ intent.policy_root.value ∷ w.issuance_nonce
        ∷ [])
      ≡ some described
  pub leaf_hash :
      hash p (domain_issuance_v1 ∷ w.issuer_commitment ∷ asset ∷ described ∷ [])
      ≡ some issuance_leaf
  pub member :
      t.MerkleProof merkle_depth issuance_leaf x.authorized_issuance_root w.issuance_merkle_siblings
        w.issuance_merkle_path_indices
  pub recipient : w.recipient_commitment ≡ intent.recipient_commitment.value
  pub offered_hi : w.offered_asset_hi ≡ from_u128 (encode_asset_base intent.offered_asset).hi
  pub offered_lo : w.offered_asset_lo ≡ from_u128 (encode_asset_base intent.offered_asset).lo
  pub offered_amount : w.offered_amount ≡ from_u64 intent.offered_amount.get
  pub requested_hi : w.requested_asset_hi ≡ from_u128 (encode_asset_base intent.requested_asset).hi
  pub requested_lo : w.requested_asset_lo ≡ from_u128 (encode_asset_base intent.requested_asset).lo
  pub requested_amount : w.requested_amount ≡ from_u64 intent.requested_amount.get
  pub fee_amount : w.matcher_fee_amount ≡ from_u64 intent.matcher_fee.amount.get
  pub fee_recipient :
      w.matcher_fee_recipient_commitment ≡ intent.matcher_fee.recipient_commitment.value
  pub nonce : w.nonce ≡ from_u64 intent.nonce.get
  pub expiry : w.expiry ≡ from_u64 intent.expiry.get

-- The stages of the circuit in the order of those of `trade_commitment_parts`.
abbrev pub circuit_stages : PrivateSignals → Hashes → List (List FieldElement)
circuit_stages w h =
    trade_hasher w h
    ∷ trade_part_a_hasher w h
    ∷ trade_part_b_hasher w h
    ∷ trade_meta_hasher w h
    ∷ offered_asset_hasher w h
    ∷ requested_asset_hasher w h
    ∷ fee_hasher w h
    ∷ []

-- For a hasher as `IsCircom` says and templates as `IsLibrary` says: let a witness satisfy the
-- constraints of the circuit for the trade commitment of an intent. Then its trade fields are those
-- of the intent, and an issuance with the asset commitment of the offered asset and the policy root
-- of the intent has a leaf under the issuance root, or at some stage the circuit and the crates
-- hash two different inputs to the same value.
pub Satisfies-Provenance :
    (p : LightPoseidon)
    → IsCircom p
    → (t : Templates) → IsLibrary p t
    → (x : PublicSignals) (w : PrivateSignals) (h : Hashes) → Satisfies t x w h
    → (intent : TradeIntent) (parts : TradeCommitmentParts)
    → Trade.trade_commitment_parts p intent ≡ some parts
    → x.trade_commitment ≡ parts.trade_commitment.value
    → Provenance p t x w intent parts.offered_asset_commitment.value
      ⊎ CollidesIn p (circuit_stages w h) (hashed intent parts)
Satisfies-Provenance p circom t library x w h proof intent parts ei e =
    let st : Stages p intent parts = staged p circom intent parts ei in
    same_inputs p _ _ (computed proof.trade_hash) st.commitment e inl (λ in_trade.
      let (ea, eb, em) = four_of in_trade in
      same_inputs p _ _ (computed proof.trade_part_a_hash) st.part_a ea (λ k. inr (inl k))
        (λ in_a.
          let (eo, offered_amount, er) = four_of in_a in
          same_inputs p _ _ (computed proof.trade_part_b_hash) st.part_b eb (λ k. inr (inr (inl k)))
            (λ in_b.
              let (requested_amount, recipient, policy) = four_of in_b in
              same_inputs p _ _ (computed proof.trade_meta_hash) st.meta em
                (λ k. inr (inr (inr (inl k))))
                (λ in_meta.
                  let (ef, nonce, expiry) = four_of in_meta in
                  same_inputs p _ _ (computed proof.offered_asset_hash) st.offered eo
                    (λ k. inr (inr (inr (inr (inl k)))))
                    (λ in_offered.
                      let (offered_hi, offered_lo) = three_of in_offered in
                      same_inputs p _ _ (computed proof.requested_asset_hash) st.requested er
                        (λ k. inr (inr (inr (inr (inr (inl k))))))
                        (λ in_requested.
                          let (requested_hi, requested_lo) = three_of in_requested in
                          same_inputs p _ _ (computed proof.fee_hash) st.fee ef
                            (λ k. inr (inr (inr (inr (inr (inr (inl k)))))))
                            (λ in_fee.
                              let (tag, fee_amount, fee_recipient) = four_of in_fee in
                              inl (record {
                                described = h.issuance_meta;
                                issuance_leaf = h.issuance_leaf;
                                meta_hash =
                                    ap
                                      (λ k. hash p (
                                        domain_issuance_meta_v1 ∷ w.series_commitment ∷ k
                                        ∷ w.issuance_nonce ∷ []))
                                      (sym policy)
                                    ∙ computed proof.issuance_meta_hash;
                                leaf_hash =
                                    ap
                                      (λ k. hash p (
                                        domain_issuance_v1 ∷ w.issuer_commitment ∷ k
                                        ∷ h.issuance_meta ∷ []))
                                      (sym eo)
                                    ∙ computed proof.issuance_leaf_hash;
                                member = proof.issuance_membership;
                                recipient = recipient;
                                offered_hi = offered_hi;
                                offered_lo = offered_lo;
                                offered_amount = offered_amount;
                                requested_hi = requested_hi;
                                requested_lo = requested_lo;
                                requested_amount = requested_amount;
                                fee_amount = fee_amount;
                                fee_recipient = fee_recipient;
                                nonce = nonce;
                                expiry = expiry;
                              }))))))))
  where
    computed :
        {inputs : List FieldElement} {out : FieldElement}
        → t.PoseidonHash inputs out
        → hash p inputs ≡ some out
    computed {inputs} {out} k = (library.hashed inputs out).0 k
