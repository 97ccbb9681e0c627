-- ===== src/Circuits/Shared/MerklePath.antt =====
-- The membership that `MerkleProofVerifier` of circuits/shared/zk-origin documents: hashing a leaf
-- with its siblings, level by level, gives the root.
use zwa_protocol.Prelude.{
  ◌>>=◌, ℕ, ◌+◌, ◌*◌, ◌<◌, Option, none, some, List, [], ◌∷◌, if◌then◌else◌, ◌==◌, nat_eq,
}

module _ {A : Type 0} where
  -- The node goes to the left where the path index is 0.
  abbrev pub ordered : ℕ → A → A → List A
  ordered bit node sibling = if bit == 0 then node ∷ sibling ∷ [] else sibling ∷ node ∷ []

  module _ (hash : List A → Option A) where
    unfoldable pub path_root : A → List A → List ℕ → Option A
    path_root node [] [] = some node
    path_root node [] (b ∷ bits) = none
    path_root node (s ∷ siblings) [] = none
    path_root node (s ∷ siblings) (b ∷ bits) =
        hash (ordered b node s) >>= λ next. path_root next siblings bits

    -- What is hashed on the way.
    unfoldable pub path_inputs : A → List A → List ℕ → List (List A)
    path_inputs node [] bits = []
    path_inputs node (s ∷ siblings) [] = []
    path_inputs node (s ∷ siblings) (b ∷ bits) =
        ordered b node s
        ∷ elim (hash (ordered b node s)) [ none ↦ [] | some next ↦ path_inputs next siblings bits ]

abbrev pub IsBit : ℕ → Type 0
IsBit b = b < 2

-- The place that the path indices spell, the lowest first.
abbrev pub place : List ℕ → ℕ
place [] = 0
place (b ∷ bits) = b + 2 * place bits
