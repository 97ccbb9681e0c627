-- ===== src/Circuits/Provenance/Issuances.antt =====
-- The issuances behind the issuance root, and their leaves (`computeIssuance` of
-- circuits/shared/trade-commitment-v1.js).
use zwa_protocol.Prelude.{ℕ, ◌≡◌, ap, ◌∙◌, some, List, [], ◌∷◌, >>=-eq-some, Option, ◌>>=◌}
use mathlib.Core.Option.{some-injective}
use zwa_protocol.Prelude.Words.{IsBytes, IsU64}
use zwa_protocol.Protocol.Field.{FieldElement, from_u64}
use zwa_protocol.Protocol.Bytes.{AssetBaseBytes}
use zwa_protocol.Commitments.Poseidon.{LightPoseidon, hash}
use zwa_protocol.Commitments.Trade
use zwa_protocol.Commitments.Trade.{TradeCommitmentParts}
use zwa_protocol.Commitments.Trade.Stages.{asset_inputs}
use zwa_protocol.Circuits.Provenance.{domain_issuance_meta_v1, domain_issuance_v1}

-- The fields of `computeIssuance`.
pub record IssuanceFields : Type 0 where
  pub offered_asset_base : AssetBaseBytes
  pub series_commitment : FieldElement
  pub policy_root : FieldElement
  pub issuance_nonce : ℕ
  pub issuer_commitment : FieldElement

-- What `assetIdToLimbs` and `assertU64` check.
pub record IsIssuance (v : IssuanceFields) : Type 0 where
  pub offered_asset_base : IsBytes 32 v.offered_asset_base.as_bytes
  pub issuance_nonce : IsU64 v.issuance_nonce

abbrev pub meta_inputs : FieldElement → FieldElement → FieldElement → List FieldElement
meta_inputs series policy_root nonce = domain_issuance_meta_v1 ∷ series ∷ policy_root ∷ nonce ∷ []

abbrev pub leaf_inputs : FieldElement → FieldElement → FieldElement → List FieldElement
leaf_inputs issuer asset described = domain_issuance_v1 ∷ issuer ∷ asset ∷ described ∷ []

-- `computeIssuance`, of which the leaf is kept. The fields are of the types that it asserts.
unfoldable pub compute_issuance : LightPoseidon → IssuanceFields → Option FieldElement
unfolding Trade.asset_commitment hash
compute_issuance p fields = do
  asset ← Trade.asset_commitment p fields.offered_asset_base
  described ←
      hash p
        (meta_inputs fields.series_commitment fields.policy_root (from_u64 fields.issuance_nonce))
  hash p (leaf_inputs fields.issuer_commitment asset.value described)

-- The leaf of an issuance, with its two intermediate values.
pub record IssuedAs (p : LightPoseidon) (v : IssuanceFields) (asset described leaf : FieldElement)
    : Type 0 where
  pub of_asset : hash p (asset_inputs v.offered_asset_base) ≡ some asset
  pub of_meta :
      hash p (meta_inputs v.series_commitment v.policy_root (from_u64 v.issuance_nonce))
      ≡ some described
  pub of_leaf : hash p (leaf_inputs v.issuer_commitment asset described) ≡ some leaf

pub compute_issuance-IssuedAs :
    (p : LightPoseidon) (v : IssuanceFields) (leaf : FieldElement)
    → compute_issuance p v ≡ some leaf
    → (asset described : FieldElement) × IssuedAs p v asset described leaf
unfolding compute_issuance Trade.asset_commitment
compute_issuance-IssuedAs p v leaf e =
    let (asset, ha, e1) = >>=-eq-some (Trade.asset_commitment p v.offered_asset_base) _ e in
    let (a, hx, e2) = >>=-eq-some (hash p (asset_inputs v.offered_asset_base)) _ ha in
    let (described, hd, e3) = >>=-eq-some (hash p _) _ e1 in
    (
      a,
      described,
      record {
        of_asset = hx;
        of_meta = hd;
        of_leaf =
            ap (λ k. hash p (leaf_inputs v.issuer_commitment k.value described))
              (some-injective _ _ e2)
            ∙ e3;
      },
    )
