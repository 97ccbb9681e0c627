-- ===== src/Circuits/Eligibility/Authority.antt =====
-- Eight credentials and eight allowed pairs, their trees, and a proof from them.
use zwa_protocol.Prelude.{refl, List, [], ◌∷◌, replicate}
use zwa_protocol.Prelude.Words
use zwa_protocol.Protocol.Field
use zwa_protocol.Protocol.Field.{FieldElement}
use zwa_protocol.Commitments.Poseidon.{hash, poseidon}
use zwa_protocol.Commitments.Counter
use zwa_protocol.Commitments.Counter.{counted, counter, counter-IsCircom}
use zwa_protocol.Commitments.Trade
use zwa_protocol.Credentials.Credential
use zwa_protocol.Credentials.Credential.{ActiveCredential}
use zwa_protocol.Circuits.Shared.MerkleTree.{build_merkle_tree, levels_from, next_level}
use zwa_protocol.Circuits.Membership.{TreeOf}
use zwa_protocol.Circuits.Counter.{
  templates, templates-IsLibrary, intent, intent-IsIntent, parts, parts_of,
}
use zwa_protocol.Circuits.Eligibility.{PublicSignals, Hashes, Satisfies}
use zwa_protocol.Circuits.Eligibility.Holder.{
  credential, credential-IsCredential, bound, bound_of, covers,
}
use zwa_protocol.Circuits.Eligibility.Signals.{MerklePaths, signals_of}
use zwa_protocol.Circuits.Eligibility.Trees.{
  Allowed, allowed_of, compute_policy_leaf, credential_leaf,
}
use zwa_protocol.Circuits.Eligibility.Prover.{ProvedAt, merkle_proof-Satisfies}

abbrev pub credentials : List ActiveCredential
credentials = replicate 8 credential

abbrev pub policy : List Allowed
policy = replicate 8 (allowed_of credential)

pub issued : TreeOf counter (credential_leaf counter) 3 credentials (counted 2)
unfolding Credential.leaf Credential.meta Credential.hash4 Credential.approved_receiver_commitment
    Trade.subject_commitment Trade.receiver_commitment hash poseidon Counter.count_inputs
    Words.to_be_bytes Field.from_be_slice build_merkle_tree levels_from next_level
issued = record {
  leaves = replicate 8 (counted 6);
  levels =
      replicate 8 (counted 6)
      ∷ replicate 4 (counted 2)
      ∷ replicate 2 (counted 2)
      ∷ replicate 1 (counted 2)
      ∷ [];
  hashed = refl;
  built = refl;
  deep = refl;
  rooted = refl;
}

pub permitted : TreeOf counter (compute_policy_leaf counter) 3 policy (counted 2)
unfolding hash poseidon Counter.count_inputs Words.to_be_bytes Field.from_be_slice build_merkle_tree
    levels_from next_level
permitted = record {
  leaves = replicate 8 (counted 3);
  levels =
      replicate 8 (counted 3)
      ∷ replicate 4 (counted 2)
      ∷ replicate 2 (counted 2)
      ∷ replicate 1 (counted 2)
      ∷ [];
  hashed = refl;
  built = refl;
  deep = refl;
  rooted = refl;
}

abbrev pub public_signals : PublicSignals
public_signals = record { active_credential_root = counted 2; trade_commitment = counted 4 }

pub proof :
    (paths : MerklePaths) × ProvedAt issued.levels permitted.levels 3 5 paths
    × ((h : Hashes) × Satisfies templates public_signals (signals_of credential intent paths) h)
proof =
    merkle_proof-Satisfies counter counter-IsCircom templates templates-IsLibrary credentials
      (counted 2) issued 3 credential refl credential-IsCredential intent intent-IsIntent policy
      permitted 5 refl bound bound_of refl parts parts_of covers
