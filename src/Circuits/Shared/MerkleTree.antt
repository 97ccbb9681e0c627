-- ===== src/Circuits/Shared/MerkleTree.antt =====
-- `buildMerkleTree` and `merkleProof` of circuits/shared/trade-commitment-v1.js, over the values and
-- the `hash` that their callers pass. `none` is an exception, of `hash` too.
pub mod Levels
pub mod Binding
pub mod Total
mod Runs
use zwa_protocol.Prelude.{
  ◌>>=◌, ℕ, zero, suc, ◌+◌, ◌-◌, ◌/◌, ◌%◌, Bool, nat_eq, Option, none, some, List, [], ◌∷◌, length,
  get_elem?, ltb, ◌==◌, not, ◌||◌, if◌then◌else◌,
}
use Prim.Native.Nat.{bit_and, bit_xor}

-- `leaves.length === 0 || (leaves.length & (leaves.length - 1)) !== 0`.
abbrev pub is_refused : ℕ → Bool
is_refused count = count == 0 || not (bit_and count (count - 1) == 0)

module _ {A : Type 0} (hash : List A → Option A) where
  -- `for (let i = 0; i < prior.length; i += 2)`; an odd level ends in a hash of `undefined`.
  unfoldable pub next_level : List A → Option (List A)
  next_level [] = some []
  next_level (l ∷ []) = none
  next_level (l ∷ r ∷ rest) =
      hash (l ∷ r ∷ []) >>= λ node. next_level rest >>= λ next. some (node ∷ next)

  -- The loop that runs while the last level has more than one node, with the levels from it on.
  unfoldable pub levels_from : ℕ → List A → Option (List (List A))
  unfolding next_level
  levels_from zero prior = none
  levels_from (suc fuel) [] = some ([] ∷ [])
  levels_from (suc fuel) (x ∷ []) = some ((x ∷ []) ∷ [])
  levels_from (suc fuel) (l ∷ r ∷ rest) = next_level (l ∷ r ∷ rest) >>= λ next.
      levels_from fuel next >>= λ above. some ((l ∷ r ∷ rest) ∷ above)

  -- Each level is at most as long as the one before, less one.
  unfoldable pub build_merkle_tree : List A → Option (List (List A))
  unfolding levels_from
  build_merkle_tree leaves =
      if is_refused (length leaves) then none else levels_from (length leaves) leaves

module _ {A : Type 0} where
  -- `levels[levels.length - 1][0]`.
  abbrev pub merkle_root : List (List A) → Option A
  merkle_root [] = none
  merkle_root (level ∷ []) = get_elem? level 0
  merkle_root (level ∷ above ∷ rest) = merkle_root (above ∷ rest)

  -- The loop over the levels below the last, with `cursor ^ 1`, `cursor & 1` and `cursor >>= 1`.
  unfoldable pub proof_from : List (List A) → ℕ → Option (List A × List ℕ)
  proof_from [] cursor = some ([], [])
  proof_from (level ∷ []) cursor = some ([], [])
  proof_from (level ∷ above ∷ rest) cursor = do
    sibling ← get_elem? level (bit_xor cursor 1)
    (siblings, bits) ← proof_from (above ∷ rest) (cursor / 2)
    some (sibling ∷ siblings, (cursor % 2) ∷ bits)

  unfoldable pub merkle_proof : List (List A) → ℕ → Option (List A × List ℕ)
  unfolding proof_from
  merkle_proof [] index = none
  merkle_proof (leaves ∷ above) index =
      if ltb index (length leaves) then proof_from (leaves ∷ above) index else none
