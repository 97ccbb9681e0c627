-- ===== src/Circuits/Templates.antt =====
-- The templates of circomlib and of circuits/shared/zk-origin that the circuits use, as a parameter.
use zwa_protocol.Prelude.{ℕ, ◌≡◌, ◌≤◌, ◌<◌, ◌^◌, ◌↔◌, some, List, map, All, length}
use zwa_protocol.Protocol.Field.{FieldElement, from_u64}
use zwa_protocol.Protocol.Field.Canonical.{value}
use zwa_protocol.Commitments.Poseidon.{LightPoseidon, hash}
use zwa_protocol.Circuits.Shared.MerklePath.{IsBit, path_root}

-- What a template's constraints say of the signals that it is connected to: `Num2Bits(n)`,
-- `ZKGreaterEqThan(n)` with output 1, `PoseidonHash2` to `PoseidonHash6`, and
-- `MerkleProofVerifier(DEPTH)` with output 1, of a leaf, a root, the siblings and the path.
pub record Templates : Type 1 where
  pub Num2Bits : ℕ → FieldElement → Type 0
  pub GreaterEqThan : ℕ → FieldElement → FieldElement → Type 0
  pub PoseidonHash : List FieldElement → FieldElement → Type 0
  pub MerkleProof : ℕ → FieldElement → FieldElement → List FieldElement → List FieldElement → Type 0

abbrev pub Membership :
    LightPoseidon → ℕ → FieldElement → FieldElement → List FieldElement → List FieldElement → Type 0
Membership p depth leaf root siblings path =
    (bits : List ℕ) × (path ≡ map from_u64 bits)
    × All IsBit bits
    × (length siblings ≡ depth)
    × (path_root (hash p) leaf siblings bits ≡ some root)

-- What the templates document, for the hasher of the Rust crates. The path indices of a Merkle proof
-- are 0 or 1, and hashing the leaf with the siblings gives the root.
pub record IsLibrary (p : LightPoseidon) (t : Templates) : Type 0 where
  pub bits : (n : ℕ) (x : FieldElement) → n ≤ 253 → t.Num2Bits n x ↔ (value x < 2 ^ n)
  pub compared :
      (x y : FieldElement)
      → value x < 2 ^ 64
      → value y < 2 ^ 64
      → t.GreaterEqThan 64 x y ↔ (value y ≤ value x)
  pub hashed :
      (inputs : List FieldElement) (out : FieldElement)
      → t.PoseidonHash inputs out ↔ (hash p inputs ≡ some out)
  pub membership :
      (depth : ℕ) (leaf root : FieldElement) (siblings path : List FieldElement)
      → t.MerkleProof depth leaf root siblings path ↔ Membership p depth leaf root siblings path
