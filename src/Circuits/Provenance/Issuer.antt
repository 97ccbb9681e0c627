-- ===== src/Circuits/Provenance/Issuer.antt =====
-- Eight issuances, their tree, and a proof from it.
use zwa_protocol.Prelude.{◌≡◌, refl, some, List, [], ◌∷◌, ℕ, arith, replicate}
use zwa_protocol.Prelude.Words
use zwa_protocol.Protocol.Field
use zwa_protocol.Protocol.Field.{FieldElement}
use zwa_protocol.Commitments.Poseidon.{hash, poseidon}
use zwa_protocol.Commitments.Counter
use zwa_protocol.Commitments.Counter.{counted, counter, counter-IsCircom}
use zwa_protocol.Commitments.Trade
use zwa_protocol.Circuits.Shared.MerkleTree.{
  build_merkle_tree, levels_from, next_level, merkle_proof,
}
use zwa_protocol.Circuits.Membership.{TreeOf}
use zwa_protocol.Circuits.Counter.{
  templates, templates-IsLibrary, intent, intent-IsIntent, parts, parts_of,
}
use zwa_protocol.Circuits.Provenance.{PublicSignals, Hashes, Satisfies}
use zwa_protocol.Circuits.Provenance.Completeness.{issued_signals}
use zwa_protocol.Circuits.Provenance.Issuances.{IssuanceFields, IsIssuance, compute_issuance}
use zwa_protocol.Circuits.Provenance.Prover.{with_proof, merkle_proof-issued_signals}

abbrev pub issuance : IssuanceFields
issuance = record {
  offered_asset_base = intent.offered_asset;
  series_commitment = counted 1;
  policy_root = counted 2;
  issuance_nonce = 9;
  issuer_commitment = counted 1;
}

pub issuance-IsIssuance : IsIssuance issuance
issuance-IsIssuance = record {
  offered_asset_base = (refl, omega arith);
  issuance_nonce = omega arith;
}

abbrev pub issuances : List IssuanceFields
issuances = replicate 8 issuance

pub tree : TreeOf counter (compute_issuance counter) 3 issuances (counted 2)
unfolding compute_issuance Trade.asset_commitment hash poseidon Counter.count_inputs
    Words.to_be_bytes Field.from_be_slice build_merkle_tree levels_from next_level
tree = record {
  leaves = replicate 8 (counted 4);
  levels =
      replicate 8 (counted 4)
      ∷ replicate 4 (counted 2)
      ∷ replicate 2 (counted 2)
      ∷ replicate 1 (counted 2)
      ∷ [];
  hashed = refl;
  built = refl;
  deep = refl;
  rooted = refl;
}

abbrev pub public_signals : PublicSignals
public_signals = record { authorized_issuance_root = counted 2; trade_commitment = counted 4 }

pub proof :
    (siblings : List FieldElement) × (bits : List ℕ) × (merkle_proof tree.levels 6
      ≡ some (siblings, bits))
    × ((h : Hashes) × Satisfies templates public_signals
          (issued_signals (with_proof issuance siblings bits) intent)
          h)
proof =
    merkle_proof-issued_signals counter counter-IsCircom templates templates-IsLibrary issuances
      (counted 2) tree 6 issuance refl issuance-IsIssuance intent intent-IsIntent refl refl parts
      parts_of
