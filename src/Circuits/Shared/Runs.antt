-- ===== src/Circuits/Shared/Runs.antt =====
-- A hasher on BigInts that counts its inputs, and the theorems at the trade and the credential of the
-- other witnesses.
use zwa_protocol.Prelude.{
  ℕ, suc, ◌≡◌, ◌≤◌, refl, sym, ap, ◌∙◌, Option, some, List, [], ◌∷◌, map, arith, length,
}
use zwa_protocol.Prelude.Int.{ℤ, pos}
use zwa_protocol.Prelude.Words
use zwa_protocol.Prelude.Words.{IsBytes, from_be_bytes-to_be_bytes, to_be_bytes-IsBytes}
use zwa_protocol.Protocol.Field
use zwa_protocol.Protocol.Field.{FieldElement}
use zwa_protocol.Protocol.Field.Canonical.{value, IsCanonical}
use zwa_protocol.Protocol.Bytes.{asset_to_hex, receiver_to_hex}
use zwa_protocol.Protocol.Bytes.RoundTrip.{asset_from_hex-to_hex, receiver_from_hex-to_hex}
use zwa_protocol.Commitments.Poseidon.{hash, hash-digest, poseidon}
use zwa_protocol.Commitments.Counter.{counted, count_inputs, counter, counter-IsCircom}
use zwa_protocol.Credentials.Credential
use zwa_protocol.Credentials.Credential.{CredentialMeta}
use zwa_protocol.Circuits.Counter.{intent, intent-IsIntent, parts, parts_of}
use zwa_protocol.Circuits.Eligibility.Holder.{
  credential, credential-IsCredential, active_leaf, leaf_of, bound, bound_of,
}
use zwa_protocol.Circuits.Shared.EligibilitySchema.{issue_credential}
use zwa_protocol.Circuits.Shared.EligibilitySchema.Agreement
use zwa_protocol.Circuits.Shared.EligibilitySchema.Agreement.{
  computed_binding, computed_credential, issue_credential-leaf,
}
use zwa_protocol.Circuits.Shared.TradeCommitment.{compute_trade}
use zwa_protocol.Circuits.Shared.TradeCommitment.Agreement.{
  big, IsCircomlib, fields_of, computed, compute_trade-trade_commitment_parts,
}

abbrev big_counter : List ℤ → Option ℤ
big_counter values = some (pos (length values))

length-big : (inputs : List FieldElement) → length (map big inputs) ≡ length inputs
length-big [] = refl
length-big (e ∷ inputs) = ap suc (length-big inputs)

counted_bytes :
    (inputs : List FieldElement) (bytes : List ℕ)
    → count_inputs inputs ≡ some bytes
    → (length inputs ≤ 12) × (bytes ≡ Words.to_be_bytes 32 (length inputs))
unfolding count_inputs
counted_bytes inputs bytes h = ground arith

big_counter-IsCircomlib : IsCircomlib counter big_counter
big_counter-IsCircomlib = record {
  agrees = λ inputs e h.
      let (few, bytes) =
        counted_bytes inputs e.to_be_bytes (hash-digest counter counter-IsCircom inputs e h) in
      let number : value e ≡ length inputs =
        ap Words.from_be_bytes bytes ∙ from_be_bytes-to_be_bytes 32 (length inputs) (omega arith) in
      ap (λ n. some (pos n)) (length-big inputs ∙ sym number);
}

counted-IsCanonical : (n : ℕ) → n ≤ 12 → IsCanonical (counted n)
counted-IsCanonical n h = record {
  fixed = to_be_bytes-IsBytes 32 n;
  reduced = omega (arith, from_be_bytes-to_be_bytes 32 n (omega arith));
}

compute_trade-trade_commitment_parts_example :
    compute_trade big_counter
      (fields_of intent (asset_to_hex intent.offered_asset) (asset_to_hex intent.requested_asset))
    ≡ some (computed parts)
compute_trade-trade_commitment_parts_example =
    compute_trade-trade_commitment_parts counter counter-IsCircom big_counter
      big_counter-IsCircomlib intent intent-IsIntent
      (record {
        recipient = counted-IsCanonical 3 (omega arith);
        policy = counted-IsCanonical 2 (omega arith);
        fee_recipient = counted-IsCanonical 3 (omega arith);
      })
      parts parts_of (asset_to_hex intent.offered_asset) (asset_to_hex intent.requested_asset)
      (asset_from_hex-to_hex intent.offered_asset intent-IsIntent.offered_asset)
      (asset_from_hex-to_hex intent.requested_asset intent-IsIntent.requested_asset)

abbrev described : CredentialMeta
described = record { value = counted 4 }

meta_of : Credential.meta counter credential ≡ some described
unfolding Credential.meta Credential.hash4 hash poseidon count_inputs Words.to_be_bytes
    Field.from_be_slice
meta_of = refl

issue_credential-leaf_example :
    issue_credential big_counter
      (Agreement.fields_of credential)
      (receiver_to_hex credential.approved_receiver)
    ≡ some (
      computed_binding credential.approved_receiver bound,
      computed_credential bound described active_leaf,
    )
issue_credential-leaf_example =
    issue_credential-leaf counter counter-IsCircom big_counter big_counter-IsCircomlib credential
      credential-IsCredential (counted-IsCanonical 2 (omega arith))
      (counted-IsCanonical 1 (omega arith)) bound bound_of described meta_of active_leaf leaf_of
      (receiver_to_hex credential.approved_receiver)
      (receiver_from_hex-to_hex credential.approved_receiver
        credential-IsCredential.approved_receiver)
