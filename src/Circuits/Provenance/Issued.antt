-- ===== src/Circuits/Provenance/Issued.antt =====
-- What a witness of circuits/provenance/rwa_trade_provenance_v1.circom shows, where the issuance root
-- is that of a tree of issuances.
use zwa_protocol.Prelude.{
  ℕ, ◌≡◌, ◌⊎◌, inl, inr, sym, some, List, [], ◌∷◌, get_elem?, All, All-get_elem?, refl,
}
use zwa_protocol.Protocol.Field.{FieldElement, from_u64}
use zwa_protocol.Protocol.Bytes.{AssetBaseBytes}
use zwa_protocol.Protocol.Intent.{TradeIntent}
use zwa_protocol.Commitments.Poseidon.{LightPoseidon, IsCircom}
use zwa_protocol.Commitments.Trade
use zwa_protocol.Commitments.Trade.{TradeCommitmentParts}
use zwa_protocol.Commitments.Trade.Stages.{Stages, asset_inputs}
use zwa_protocol.Commitments.Trade.Binding.{
  CollidesIn, hashed, IsIntent, same_inputs, same_asset, four_of, staged,
}
use zwa_protocol.Circuits.Templates.{Templates, IsLibrary}
use zwa_protocol.Circuits.Membership.{TreeOf, InTree, PathFails, in_tree}
use zwa_protocol.Circuits.Provenance.{
  PublicSignals, PrivateSignals, Hashes, Satisfies, merkle_depth,
}
use zwa_protocol.Circuits.Provenance.Issuances.{
  IssuanceFields, IsIssuance, meta_inputs, leaf_inputs, compute_issuance, IssuedAs,
  compute_issuance-IssuedAs,
}
use zwa_protocol.Circuits.Provenance.Soundness.{Provenance, circuit_stages, Satisfies-Provenance}

-- The inputs of the hashes that lead to the leaf of an issuance.
abbrev pub issuance_stages :
    FieldElement
    → FieldElement
    → FieldElement
    → FieldElement
    → FieldElement
    → FieldElement
    → AssetBaseBytes
    → List (List FieldElement)
issuance_stages issuer asset described series policy_root nonce asset_base =
    leaf_inputs issuer asset described
    ∷ meta_inputs series policy_root nonce
    ∷ asset_inputs asset_base
    ∷ []

-- What the proof is to show of the list behind the issuance root.
pub record Provenant (p : LightPoseidon) (t : Templates) (x : PublicSignals) (w : PrivateSignals)
    (intent : TradeIntent) (asset : FieldElement) (issuances : List IssuanceFields) : Type 0 where
  pub index : ℕ
  pub issuance : IssuanceFields
  pub issued : get_elem? issuances index ≡ some issuance
  pub same_asset_base : issuance.offered_asset_base ≡ intent.offered_asset
  pub same_policy : issuance.policy_root ≡ intent.policy_root.value
  pub trade : Provenance p t x w intent asset

-- Where Poseidon collides, if the proof shows something else.
pub data IssuanceCollides (p : LightPoseidon) (t : Templates) (x : PublicSignals)
    (w : PrivateSignals) (h : Hashes) (intent : TradeIntent) (parts : TradeCommitmentParts)
    (issuances : List IssuanceFields) (levels : List (List FieldElement)) : Type 0 where
  in_trade :
      CollidesIn p (circuit_stages w h) (hashed intent parts)
      → IssuanceCollides p t x w h intent parts issuances levels
  in_issuance_tree :
      (k : Provenance p t x w intent parts.offered_asset_commitment.value)
      → PathFails p levels k.issuance_leaf w.issuance_merkle_siblings w.issuance_merkle_path_indices
      → IssuanceCollides p t x w h intent parts issuances levels
  in_issuance :
      (k : Provenance p t x w intent parts.offered_asset_commitment.value) (i : ℕ)
      (v : IssuanceFields) (asset described : FieldElement)
      → get_elem? issuances i ≡ some v
      → IssuedAs p v asset described k.issuance_leaf
      → CollidesIn p
          (issuance_stages w.issuer_commitment parts.offered_asset_commitment.value k.described
            w.series_commitment intent.policy_root.value w.issuance_nonce intent.offered_asset)
          (issuance_stages v.issuer_commitment asset described v.series_commitment v.policy_root
            (from_u64 v.issuance_nonce)
            v.offered_asset_base)
      → IssuanceCollides p t x w h intent parts issuances levels

-- For a hasher as `IsCircom` says and templates as `IsLibrary` says: let the public issuance root be
-- that of the tree of some issuances, and let a witness satisfy the constraints of the circuit for
-- the trade commitment of an intent. Then one of the issuances is of the offered asset of the intent,
-- under the policy root of the intent, and the trade fields of the witness are those of the intent, or
-- two different inputs, at places that `IssuanceCollides` names, have the same hash. The intent and
-- the issuances are well-formed.
pub Satisfies-Provenant :
    (p : LightPoseidon)
    → IsCircom p
    → (t : Templates) → IsLibrary p t
    → (x : PublicSignals) (w : PrivateSignals) (h : Hashes) → Satisfies t x w h
    → (intent : TradeIntent) → IsIntent intent
    → (parts : TradeCommitmentParts) → Trade.trade_commitment_parts p intent ≡ some parts
    → x.trade_commitment ≡ parts.trade_commitment.value
    → (issuances : List IssuanceFields) → All IsIssuance issuances
    → (tree : TreeOf p (compute_issuance p) merkle_depth issuances x.authorized_issuance_root)
    → Provenant p t x w intent parts.offered_asset_commitment.value issuances
      ⊎ IssuanceCollides p t x w h intent parts issuances tree.levels
Satisfies-Provenant p circom t library x w h proof intent hi parts ei e issuances hv tree =
    elim (Satisfies-Provenance p circom t library x w h proof intent parts ei e) [
      | inr collision ↦ inr (in_trade collision)
      | inl k ↦
          elim (in_tree p t library (compute_issuance p) merkle_depth issuances k.issuance_leaf
            x.authorized_issuance_root w.issuance_merkle_siblings w.issuance_merkle_path_indices
            tree k.member) [
              | inr fails ↦ inr (in_issuance_tree k fails)
              | inl found ↦ holds k found
            ]
    ]
  where
    holds :
        (k : Provenance p t x w intent parts.offered_asset_commitment.value)
        → InTree (compute_issuance p) issuances k.issuance_leaf
        → Provenant p t x w intent parts.offered_asset_commitment.value issuances
          ⊎ IssuanceCollides p t x w h intent parts issuances tree.levels
    holds k found =
        let v : IssuanceFields = found.value in
        let wf : IsIssuance v = All-get_elem? IsIssuance issuances found.index v hv found.found in
        let (asset, described, made) = compute_issuance-IssuedAs p v k.issuance_leaf found.hashed in
        let st : Stages p intent parts = staged p circom intent parts ei in
        same_inputs p _ _ k.leaf_hash made.of_leaf refl
          (λ c. in_issuance k found.index v asset described found.found made (inl c))
          (λ in_leaf.
            let (issuer, assets, metas) = four_of in_leaf in
            same_inputs p _ _ k.meta_hash made.of_meta metas
              (λ c. in_issuance k found.index v asset described found.found made (inr (inl c)))
              (λ in_meta.
                let (series, policy, nonce) = four_of in_meta in
                same_asset p intent.offered_asset v.offered_asset_base hi.offered_asset
                  wf.offered_asset_base st.offered made.of_asset assets
                  (λ c.
                    in_issuance k found.index v asset described found.found made
                      (inr (inr (inl c))))
                  (λ same. inl (record {
                    index = found.index;
                    issuance = v;
                    issued = found.found;
                    same_asset_base = sym same;
                    same_policy = sym policy;
                    trade = k;
                  }))))
