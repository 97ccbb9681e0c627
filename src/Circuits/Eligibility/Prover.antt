-- ===== src/Circuits/Eligibility/Prover.antt =====
-- That the proofs of the two trees, by `merkleProof` of circuits/shared/trade-commitment-v1.js,
-- complete the signals of circuits/eligibility/rwa_investor_eligibility_v1.circom.
use zwa_protocol.Prelude.{ℕ, ◌≡◌, refl, true, some, List, map, get_elem?, >>=_of, arith}
use zwa_protocol.Protocol.Field.{FieldElement, from_u64}
use zwa_protocol.Protocol.Intent.{TradeIntent}
use zwa_protocol.Commitments.Poseidon.{LightPoseidon, IsCircom, hash_total}
use zwa_protocol.Commitments.Trade
use zwa_protocol.Commitments.Trade.{RecipientBinding, TradeCommitmentParts}
use zwa_protocol.Commitments.Trade.Binding.{IsIntent}
use zwa_protocol.Credentials.Values.{covers_trade_expiry}
use zwa_protocol.Credentials.Credential.{ActiveCredential}
use zwa_protocol.Credentials.Credential.Binding.{IsCredential, leaf-HashesTo}
use zwa_protocol.Circuits.Templates.{Templates, IsLibrary}
use zwa_protocol.Circuits.Membership.{TreeOf, proved_in}
use zwa_protocol.Circuits.Shared.MerkleTree.{merkle_proof}
use zwa_protocol.Circuits.Eligibility.{Hashes, Satisfies, policy_depth, credential_depth}
use zwa_protocol.Circuits.Eligibility.Trees.{
  Allowed, allowed_of, policy_inputs, compute_policy_leaf, credential_leaf,
}
use zwa_protocol.Circuits.Eligibility.Signals.{MerklePaths, signals_of}
use zwa_protocol.Circuits.Eligibility.Completeness.{signals_of-Satisfies}

-- The paths are those that the two trees give at two indices.
pub record ProvedAt (credential_levels policy_levels : List (List FieldElement)) (i j : ℕ)
    (paths : MerklePaths) : Type 0 where
  pub credential_bits : List ℕ
  pub policy_bits : List ℕ
  pub credential :
      merkle_proof credential_levels i ≡ some (paths.credential_siblings, credential_bits)
  pub credential_path : paths.credential_path ≡ map from_u64 credential_bits
  pub policy : merkle_proof policy_levels j ≡ some (paths.policy_siblings, policy_bits)
  pub policy_path : paths.policy_path ≡ map from_u64 policy_bits

-- For a hasher as `IsCircom` says and templates as `IsLibrary` says: where a credential stands in the
-- tree under the credential root, its class and jurisdiction in the tree under the policy root of an
-- intent, the recipient commitment of the intent binds the secret of the credential and the receiver
-- that it approves, and the credential covers the expiry of the intent, the paths that the two trees
-- give exist, and with them the values of the credential and the intent satisfy the constraints of
-- the circuit for the trade commitment of the intent. Credential and intent are well-formed.
pub merkle_proof-Satisfies :
    (p : LightPoseidon)
    → IsCircom p
    → (t : Templates) → IsLibrary p t
    → (credentials : List ActiveCredential) (root : FieldElement)
    → (issued : TreeOf p (credential_leaf p) credential_depth credentials root)
    → (i : ℕ) (c : ActiveCredential) → get_elem? credentials i ≡ some c
    → IsCredential c
    → (intent : TradeIntent) → IsIntent intent
    → (policy : List Allowed)
    → (permitted : TreeOf p (compute_policy_leaf p) policy_depth policy intent.policy_root.value)
    → (j : ℕ) → get_elem? policy j ≡ some (allowed_of c)
    → (bound : RecipientBinding)
    → Trade.bind_recipient p c.subject_secret c.approved_receiver ≡ some bound
    → intent.recipient_commitment ≡ bound.recipient_commitment
    → (parts : TradeCommitmentParts) → Trade.trade_commitment_parts p intent ≡ some parts
    → covers_trade_expiry c.credential_expiry intent.expiry.instant ≡ true
    → (paths : MerklePaths) × ProvedAt issued.levels permitted.levels i j paths
      × ((h : Hashes) × Satisfies t
            (record {
              active_credential_root = root;
              trade_commitment = parts.trade_commitment.value;
            })
            (signals_of c intent paths)
            h)
merkle_proof-Satisfies p circom t library credentials root issued i c found hc intent hi policy
      permitted j allowed bound eb er parts ei cover =
    let (s, m, r, leaf, lc, stages) = leaf-HashesTo p circom c in
    let (described, dc, canonical) =
      hash_total p circom (policy_inputs (allowed_of c)) (omega arith) (omega arith) in
    let (credential_siblings, credential_bits, credential_proof, member) =
      proved_in p t library (credential_leaf p) credential_depth credentials root issued i c
        leaf.value found (>>=_of _ lc refl) in
    let (policy_siblings, policy_bits, policy_proof, in_policy) =
      proved_in p t library (compute_policy_leaf p) policy_depth policy intent.policy_root.value
        permitted j (allowed_of c) described allowed dc in
    let paths : MerklePaths = record {
      credential_siblings = credential_siblings;
      credential_path = map from_u64 credential_bits;
      policy_siblings = policy_siblings;
      policy_path = map from_u64 policy_bits;
    } in
    let (h, same, satisfied) =
      signals_of-Satisfies p circom t library c intent paths hc hi leaf lc bound eb er parts ei
        cover root described member dc in_policy in
    (
      paths,
      record {
        credential_bits = credential_bits;
        policy_bits = policy_bits;
        credential = credential_proof;
        credential_path = refl;
        policy = policy_proof;
        policy_path = refl;
      },
      (h, satisfied),
    )
