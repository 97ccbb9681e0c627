-- ===== src/Commitments/Trade/Binding.antt =====
-- What the trade commitment of crates/commitments/src/trade.rs binds: two intents of one commitment
-- are the same, or they exhibit a collision of Poseidon.
use zwa_protocol.Prelude.{
  ◌≡◌, ◌⊎◌, inl, inr, sym, ap, ap₂, ◌∙◌, some, List, [], ◌∷◌, arith, take, drop, All-take, All-drop,
  length-take, length-drop, subst,
}
use mathlib.Core.Option.{some-injective}
use zwa_protocol.Prelude.Words.{IsByte, IsBytes, IsU64, IsU128}
use zwa_protocol.Protocol.Field.{FieldElement, from_u64}
use zwa_protocol.Protocol.Field.Canonical.{from_u64-injective, from_u128-injective}
use zwa_protocol.Protocol.Bytes.{AssetBaseBytes}
use zwa_protocol.Protocol.Values.{MatcherFee}
use zwa_protocol.Protocol.Intent.{TradeIntent}
use zwa_protocol.Commitments.AssetBase.{
  encode_asset_base, decode_asset_base, decode_asset_base-encode_asset_base, little_endian_u128-lt,
}
use zwa_protocol.Commitments.Domain.{trade_a_v1, trade_b_v1, trade_meta_v1, trade_v1, as_field}
use zwa_protocol.Commitments.Poseidon.{LightPoseidon, IsCircom, hash, Collides, same_or_Collides}
use zwa_protocol.Commitments.Trade
use zwa_protocol.Commitments.Trade.{TradeCommitmentParts}
use zwa_protocol.Commitments.Trade.Stages.{
  asset_inputs, fee_inputs, Stages, trade_commitment_parts-Stages,
}

-- The values that the source's types guarantee.
pub record IsIntent (intent : TradeIntent) : Type 0 where
  pub offered_asset : IsBytes 32 intent.offered_asset.as_bytes
  pub requested_asset : IsBytes 32 intent.requested_asset.as_bytes
  pub offered_amount : IsU64 intent.offered_amount.get
  pub requested_amount : IsU64 intent.requested_amount.get
  pub fee_amount : IsU64 intent.matcher_fee.amount.get
  pub nonce : IsU64 intent.nonce.get
  pub expiry : IsU64 intent.expiry.get

pub encode_asset_base-IsU128 :
    (a : AssetBaseBytes)
    → IsBytes 32 a.as_bytes
    → IsU128 (encode_asset_base a).hi × IsU128 (encode_asset_base a).lo
unfolding encode_asset_base
encode_asset_base-IsU128 a h = (
  omega (
    arith,
    little_endian_u128-lt 16 (drop 16 a.as_bytes) (omega arith)
        (omega (arith, length-drop 16 a.as_bytes), All-drop IsByte 16 a.as_bytes h.1),
  ),
  omega (
    arith,
    little_endian_u128-lt 16 (take 16 a.as_bytes) (omega arith)
        (omega (arith, length-take 16 a.as_bytes), All-take IsByte 16 a.as_bytes h.1),
  ),
)

encode_asset_base-injective :
    (a b : AssetBaseBytes)
    → IsBytes 32 a.as_bytes
    → IsBytes 32 b.as_bytes
    → (encode_asset_base a).hi ≡ (encode_asset_base b).hi
    → (encode_asset_base a).lo ≡ (encode_asset_base b).lo
    → a ≡ b
encode_asset_base-injective a b ha hb eh el =
    sym (decode_asset_base-encode_asset_base a ha)
    ∙ ap₂ (λ h l. decode_asset_base (record { hi = h; lo = l })) eh el
    ∙ decode_asset_base-encode_asset_base b hb

pub three_of :
    {a b c a' b' c' : FieldElement} → (a ∷ b ∷ c ∷ []) ≡ (a' ∷ b' ∷ c' ∷ []) → (b ≡ b') × (c ≡ c')
three_of e = (cc, cc)

pub four_of :
    {a b c d a' b' c' d' : FieldElement}
    → (a ∷ b ∷ c ∷ d ∷ []) ≡ (a' ∷ b' ∷ c' ∷ d' ∷ [])
    → (b ≡ b') × (c ≡ c') × (d ≡ d')
four_of e = (cc, cc, cc)

pub staged :
    (p : LightPoseidon)
    → IsCircom p
    → (a : TradeIntent) (parts : TradeCommitmentParts)
    → Trade.trade_commitment_parts p a ≡ some parts
    → Stages p a parts
staged p c a parts e =
    let (q, l, s) = trade_commitment_parts-Stages p c a in
    subst (Stages p a) (some-injective _ _ (sym l ∙ e)) s

-- Some input of the first list collides with the input at its place in the second.
abbrev pub CollidesIn : LightPoseidon → List (List FieldElement) → List (List FieldElement) → Type 0
CollidesIn p (xs ∷ xss) (ys ∷ yss) = Collides p xs ys ⊎ CollidesIn p xss yss
CollidesIn p _ _ = ⊥

-- The inputs that the staging of an intent hashes.
abbrev pub hashed : TradeIntent → TradeCommitmentParts → List (List FieldElement)
hashed intent parts =
    (as_field trade_v1
      ∷ parts.trade_part_a.value
      ∷ parts.trade_part_b.value
      ∷ parts.trade_meta.value
      ∷ [])
    ∷ (as_field trade_a_v1
        ∷ parts.offered_asset_commitment.value
        ∷ from_u64 intent.offered_amount.get
        ∷ parts.requested_asset_commitment.value
        ∷ [])
    ∷ (as_field trade_b_v1
        ∷ from_u64 intent.requested_amount.get
        ∷ intent.recipient_commitment.value
        ∷ intent.policy_root.value
        ∷ [])
    ∷ (as_field trade_meta_v1
        ∷ parts.fee_commitment.value
        ∷ from_u64 intent.nonce.get
        ∷ from_u64 intent.expiry.get
        ∷ [])
    ∷ asset_inputs intent.offered_asset
    ∷ asset_inputs intent.requested_asset
    ∷ fee_inputs intent.matcher_fee
    ∷ []

module _ (p : LightPoseidon) {B C : Type 0} where
  -- Equal outputs of two stages: go on with equal inputs, or place the collision.
  pub same_inputs :
      {x y : FieldElement} (xs ys : List FieldElement)
      → hash p xs ≡ some x
      → hash p ys ≡ some y
      → x ≡ y
      → (Collides p xs ys → C)
      → (xs ≡ ys → B ⊎ C)
      → B ⊎ C
  same_inputs xs ys hx hy e place go_on =
      elim (same_or_Collides p xs ys hx (hy ∙ ap some (sym e))) [
        | inl same ↦ go_on same
        | inr c ↦ inr (place c)
      ]

  pub same_asset :
      {x y : FieldElement} (a b : AssetBaseBytes)
      → IsBytes 32 a.as_bytes
      → IsBytes 32 b.as_bytes
      → hash p (asset_inputs a) ≡ some x
      → hash p (asset_inputs b) ≡ some y
      → x ≡ y
      → (Collides p (asset_inputs a) (asset_inputs b) → C)
      → (a ≡ b → B ⊎ C)
      → B ⊎ C
  same_asset a b ha hb hx hy e place go_on = same_inputs _ _ hx hy e place (λ inputs.
      let (hi, lo) = three_of inputs in
      let (ah, al) = encode_asset_base-IsU128 a ha in
      let (bh, bl) = encode_asset_base-IsU128 b hb in
      go_on (
        encode_asset_base-injective a b ha hb (from_u128-injective _ _ ah bh hi)
          (from_u128-injective _ _ al bl lo)))

  same_fee :
      {x y : FieldElement} (a b : MatcherFee)
      → IsU64 a.amount.get
      → IsU64 b.amount.get
      → hash p (fee_inputs a) ≡ some x
      → hash p (fee_inputs b) ≡ some y
      → x ≡ y
      → (Collides p (fee_inputs a) (fee_inputs b) → C)
      → (a ≡ b → B ⊎ C)
      → B ⊎ C
  same_fee a b ha hb hx hy e place go_on = same_inputs _ _ hx hy e place (λ inputs.
      let (tag, amount, recipient) = four_of inputs in
      let same : a.amount.get ≡ b.amount.get = from_u64-injective _ _ ha hb amount in
      go_on (λ i. record {
        amount = record { get = same i };
        recipient_commitment = record { value = recipient i };
      }))

Stages-binds :
    (p : LightPoseidon) (pa pb : TradeCommitmentParts) (a b : TradeIntent)
    → IsIntent a
    → IsIntent b
    → Stages p a pa
    → Stages p b pb
    → pa.trade_commitment.value ≡ pb.trade_commitment.value
    → (a ≡ b) ⊎ CollidesIn p (hashed a pa) (hashed b pb)
Stages-binds p pa pb a b ha hb sa sb e =
    same_inputs p _ _ sa.commitment sb.commitment e inl (λ parts.
      let (ea, eb, em) = four_of parts in
      same_inputs p _ _ sa.part_a sb.part_a ea (λ c. inr (inl c))
        (λ in_a.
          let (eo, offered_amount, er) = four_of in_a in
          same_inputs p _ _ sa.part_b sb.part_b eb (λ c. inr (inr (inl c)))
            (λ in_b.
              let (requested_amount, recipient, policy) = four_of in_b in
              same_inputs p _ _ sa.meta sb.meta em (λ c. inr (inr (inr (inl c))))
                (λ in_meta.
                  let (ef, nonce, expiry) = four_of in_meta in
                  same_asset p a.offered_asset b.offered_asset ha.offered_asset hb.offered_asset
                    sa.offered sb.offered eo (λ c. inr (inr (inr (inr (inl c)))))
                    (λ offered.
                      same_asset p a.requested_asset b.requested_asset ha.requested_asset
                        hb.requested_asset sa.requested sb.requested er
                        (λ c. inr (inr (inr (inr (inr (inl c))))))
                        (λ requested.
                          same_fee p a.matcher_fee b.matcher_fee ha.fee_amount hb.fee_amount sa.fee
                            sb.fee ef (λ c. inr (inr (inr (inr (inr (inr (inl c)))))))
                            (λ fee.
                              let oa =
                                from_u64-injective _ _ ha.offered_amount hb.offered_amount
                                  offered_amount in
                              let ra =
                                from_u64-injective _ _ ha.requested_amount hb.requested_amount
                                  requested_amount in
                              let no = from_u64-injective _ _ ha.nonce hb.nonce nonce in
                              let ex = from_u64-injective _ _ ha.expiry hb.expiry expiry in
                              inl (λ i. record {
                                offered_asset = offered i;
                                offered_amount = record { get = oa i };
                                requested_asset = requested i;
                                requested_amount = record { get = ra i };
                                recipient_commitment = record { value = recipient i };
                                policy_root = record { value = policy i };
                                matcher_fee = fee i;
                                nonce = record { get = no i };
                                expiry = record { instant = record { get = ex i } };
                              }))))))))

-- For a hasher as `IsCircom` says: two well-formed intents whose staging ends in one trade
-- commitment are the same intent, in every field, or at some stage they hash two different inputs
-- to the same value.
pub trade_commitment-binds :
    (p : LightPoseidon)
    → IsCircom p
    → (a b : TradeIntent) → IsIntent a
    → IsIntent b
    → (pa pb : TradeCommitmentParts) → Trade.trade_commitment_parts p a ≡ some pa
    → Trade.trade_commitment_parts p b ≡ some pb
    → pa.trade_commitment ≡ pb.trade_commitment
    → (a ≡ b) ⊎ CollidesIn p (hashed a pa) (hashed b pb)
trade_commitment-binds p c a b ha hb pa pb la lb e =
    Stages-binds p pa pb a b ha hb (staged p c a pa la) (staged p c b pb lb) (ap (λ t. t.value) e)
