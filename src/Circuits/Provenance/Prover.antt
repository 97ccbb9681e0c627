-- ===== src/Circuits/Provenance/Prover.antt =====
-- That the proof of an issuance, by `merkleProof` of circuits/shared/trade-commitment-v1.js, completes
-- the signals of circuits/provenance/rwa_trade_provenance_v1.circom.
use zwa_protocol.Prelude.{
  ◌≡◌, sym, ap, ◌∙◌, ℕ, some, List, [], ◌∷◌, map, get_elem?, get_elem?-traverse,
}
use mathlib.Core.Option.{some-injective}
use zwa_protocol.Protocol.Field.{FieldElement, from_u64}
use zwa_protocol.Protocol.Intent.{TradeIntent}
use zwa_protocol.Commitments.Poseidon.{LightPoseidon, IsCircom, hash}
use zwa_protocol.Commitments.Trade
use zwa_protocol.Commitments.Trade.{TradeCommitmentParts}
use zwa_protocol.Commitments.Trade.Stages.{Stages, asset_inputs}
use zwa_protocol.Commitments.Trade.Binding.{IsIntent, staged}
use zwa_protocol.Circuits.Templates.{Templates, IsLibrary}
use zwa_protocol.Circuits.Membership.{TreeOf, proved_in}
use zwa_protocol.Circuits.Shared.MerkleTree.{merkle_proof}
use zwa_protocol.Circuits.Provenance.{
  Hashes, Satisfies, domain_issuance_meta_v1, domain_issuance_v1, merkle_depth,
}
use zwa_protocol.Circuits.Provenance.Completeness.{
  Issuance, issued_signals, issued_signals-Satisfies,
}
use zwa_protocol.Circuits.Provenance.Issuances.{
  IssuanceFields, IsIssuance, compute_issuance, compute_issuance-IssuedAs,
}

-- What the holder knows of an issuance, with its proof.
abbrev pub with_proof : IssuanceFields → List FieldElement → List ℕ → Issuance
with_proof v siblings bits = record {
  issuer_commitment = v.issuer_commitment;
  series_commitment = v.series_commitment;
  issuance_nonce = v.issuance_nonce;
  merkle_siblings = siblings;
  merkle_path_indices = map from_u64 bits;
}

-- For a hasher as `IsCircom` says and templates as `IsLibrary` says: where an issuance of the offered
-- asset of an intent, under the policy root of the intent, stands in the tree under the issuance root,
-- the proof that the tree gives exists, and with it the values of the issuance and the intent satisfy
-- the constraints of the circuit for the trade commitment of the intent. Issuance and intent are
-- well-formed.
pub merkle_proof-issued_signals :
    (p : LightPoseidon)
    → IsCircom p
    → (t : Templates) → IsLibrary p t
    → (issuances : List IssuanceFields) (root : FieldElement)
    → (tree : TreeOf p (compute_issuance p) merkle_depth issuances root)
    → (i : ℕ) (v : IssuanceFields) → get_elem? issuances i ≡ some v
    → IsIssuance v
    → (intent : TradeIntent) → IsIntent intent
    → v.offered_asset_base ≡ intent.offered_asset
    → v.policy_root ≡ intent.policy_root.value
    → (parts : TradeCommitmentParts) → Trade.trade_commitment_parts p intent ≡ some parts
    → (siblings : List FieldElement) × (bits : List ℕ) × (merkle_proof tree.levels i
        ≡ some (siblings, bits))
      × ((h : Hashes) × Satisfies t
            (record {
              authorized_issuance_root = root;
              trade_commitment = parts.trade_commitment.value;
            })
            (issued_signals (with_proof v siblings bits) intent)
            h)
merkle_proof-issued_signals p circom t library issuances root tree i v found hv intent hi ea ep
      parts ei =
    let (leaf, at, of_v) =
      get_elem?-traverse (compute_issuance p) issuances tree.leaves i v tree.hashed found in
    let (asset, described, made) = compute_issuance-IssuedAs p v leaf of_v in
    let st : Stages p intent parts = staged p circom intent parts ei in
    let same : asset ≡ parts.offered_asset_commitment.value =
      some-injective _ _ (sym made.of_asset ∙ ap (λ k. hash p (asset_inputs k)) ea ∙ st.offered) in
    let (siblings, bits, proof, member) =
      proved_in p t library (compute_issuance p) merkle_depth issuances root tree i v leaf found
        of_v in
    (
      siblings,
      bits,
      proof,
      (
        _,
        issued_signals-Satisfies p circom t library (with_proof v siblings bits) intent
            hv.issuance_nonce hi parts ei root described leaf
            (ap
                (λ k. hash p (
                  domain_issuance_meta_v1
                  ∷ v.series_commitment
                  ∷ k
                  ∷ from_u64 v.issuance_nonce
                  ∷ []))
                (sym ep)
              ∙ made.of_meta)
            (ap (λ k. hash p (domain_issuance_v1 ∷ v.issuer_commitment ∷ k ∷ described ∷ []))
                (sym same)
              ∙ made.of_leaf)
            member,
      ),
    )
