-- ===== src/Protocol/Display/Problems.antt =====
-- The problems of crates/protocol/src/error.rs that carry numbers: their texts tell them apart.
use zwa_protocol.Prelude.{
  ℕ, ◌≡◌, ◌<◌, refl, sym, ap, ap₂, ◌∙◌, List, ◌∷◌, ◌++◌, arith, append-injective, span-injective,
  [], take, nat_eq, list_eq,
}
use zwa_protocol.Protocol.Error.{RootEnvelopeProblem, ProofProblem}
use zwa_protocol.Protocol.Field.Decimal.{IsDigit}
use zwa_protocol.Protocol.Display.{codes, number_text, root_problem_text, proof_problem_text}
use zwa_protocol.Protocol.Display.Numbers.{number_text-decimal, number_text-injective}
use zwa_protocol.Protocol.Display.Heads.{place_of}

-- What follows one literal.
pub after : (literal : List ℕ) {xs ys : List ℕ} → literal ++ xs ≡ literal ++ ys → xs ≡ ys
after literal e = (append-injective literal literal refl e).1

pub below_digits : (c : ℕ) → c < 48 → ¬ IsDigit c
below_digits c h d = absurd (omega (arith, d.0))

-- A number and a byte that is no digit.
pub number_then :
    (a b c : ℕ) {xs ys : List ℕ}
    → ¬ IsDigit c
    → number_text a ++ (c ∷ xs) ≡ number_text b ++ (c ∷ ys)
    → (a ≡ b) × ((c ∷ xs) ≡ (c ∷ ys))
number_then a b c n e =
    let (same, rest) =
      span-injective IsDigit (number_text a) (number_text b) (number_text-decimal a).0.1
        (number_text-decimal b).0.1 n n e in
    (number_text-injective a b same, rest)

-- Two numbers with a literal before each, the second of which starts with no digit.
pub two_numbers :
    (first : List ℕ) (c : ℕ) (second : List ℕ) (a b a' b' : ℕ)
    → ¬ IsDigit c
    → first ++ (number_text a ++ ((c ∷ second) ++ number_text b))
      ≡ first ++ (number_text a' ++ ((c ∷ second) ++ number_text b'))
    → (a ≡ a') × (b ≡ b')
two_numbers first c second a b a' b' n e =
    let (same, rest) = number_then a a' c n (after first e) in
    (same, number_text-injective b b' (after (c ∷ second) rest))

-- The first 20 bytes of a problem of a root envelope.
abbrev root_heads : List (List ℕ × ℕ)
root_heads =
    (codes "issuer or credential", 0)
    ∷ (codes "authority identifier", 1)
    ∷ (codes "signature material m", 2)
    ∷ (codes "signature material i", 3)
    ∷ (codes "envelope valid_from ", 4)
    ∷ (codes "envelope expired at ", 5)
    ∷ []

abbrev root_place : RootEnvelopeProblem → ℕ
root_place RootEnvelopeProblem.missing_authority_identifier = 0
root_place (RootEnvelopeProblem.identifier_too_long got max) = 1
root_place RootEnvelopeProblem.signature_missing = 2
root_place (RootEnvelopeProblem.signature_too_long got max) = 3
root_place (RootEnvelopeProblem.not_yet_valid valid_from now) = 4
root_place (RootEnvelopeProblem.expired expires_at now) = 5

root_head :
    (e : RootEnvelopeProblem) → place_of root_heads (take 20 (root_problem_text e)) ≡ root_place e
unfolding root_problem_text
root_head RootEnvelopeProblem.missing_authority_identifier = refl
root_head (RootEnvelopeProblem.identifier_too_long got max) = refl
root_head RootEnvelopeProblem.signature_missing = refl
root_head (RootEnvelopeProblem.signature_too_long got max) = refl
root_head (RootEnvelopeProblem.not_yet_valid valid_from now) = refl
root_head (RootEnvelopeProblem.expired expires_at now) = refl

root_place-same :
    (a b : RootEnvelopeProblem)
    → root_problem_text a ≡ root_problem_text b
    → root_place a ≡ root_place b
root_place-same a b e =
    sym (root_head a) ∙ ap (λ t. place_of root_heads (take 20 t)) e ∙ root_head b

-- The first 7 bytes of a problem of a proof.
abbrev proof_heads : List (List ℕ × ℕ)
proof_heads = (codes "proof b", 0) ∷ (codes "proof i", 1) ∷ []

abbrev proof_place : ProofProblem → ℕ
proof_place ProofProblem.empty = 0
proof_place (ProofProblem.too_large got max) = 1

proof_head :
    (e : ProofProblem) → place_of proof_heads (take 7 (proof_problem_text e)) ≡ proof_place e
unfolding proof_problem_text
proof_head ProofProblem.empty = refl
proof_head (ProofProblem.too_large got max) = refl

proof_place-same :
    (a b : ProofProblem)
    → proof_problem_text a ≡ proof_problem_text b
    → proof_place a ≡ proof_place b
proof_place-same a b e =
    sym (proof_head a) ∙ ap (λ t. place_of proof_heads (take 7 t)) e ∙ proof_head b

pub root_problem_text-injective :
    (a b : RootEnvelopeProblem) → root_problem_text a ≡ root_problem_text b → a ≡ b
unfolding root_problem_text
root_problem_text-injective RootEnvelopeProblem.missing_authority_identifier
      RootEnvelopeProblem.missing_authority_identifier e =
    refl
root_problem_text-injective RootEnvelopeProblem.signature_missing
      RootEnvelopeProblem.signature_missing e =
    refl
root_problem_text-injective (RootEnvelopeProblem.identifier_too_long g m)
      (RootEnvelopeProblem.identifier_too_long g' m') e =
    let (x, y) =
      two_numbers (codes "authority identifier is ") b' ' (codes "bytes, max ") g m g' m'
        (below_digits b' ' (omega arith)) e in
    ap₂ RootEnvelopeProblem.identifier_too_long x y
root_problem_text-injective (RootEnvelopeProblem.signature_too_long g m)
      (RootEnvelopeProblem.signature_too_long g' m') e =
    let (x, y) =
      two_numbers (codes "signature material is ") b' ' (codes "bytes, max ") g m g' m'
        (below_digits b' ' (omega arith)) e in
    ap₂ RootEnvelopeProblem.signature_too_long x y
root_problem_text-injective (RootEnvelopeProblem.not_yet_valid v n)
      (RootEnvelopeProblem.not_yet_valid v' n') e =
    let (x, y) =
      two_numbers (codes "envelope valid_from ") b' ' (codes "is after verification time ") v n v'
        n' (below_digits b' ' (omega arith)) e in
    ap₂ RootEnvelopeProblem.not_yet_valid x y
root_problem_text-injective (RootEnvelopeProblem.expired v n) (RootEnvelopeProblem.expired v' n')
      e =
    let (x, y) =
      two_numbers (codes "envelope expired at ") b' ' (codes "and cannot be used at ") v n v' n'
        (below_digits b' ' (omega arith)) e in
    ap₂ RootEnvelopeProblem.expired x y
root_problem_text-injective a b e = absurd (omega (arith, root_place-same a b e))

pub proof_problem_text-injective :
    (a b : ProofProblem) → proof_problem_text a ≡ proof_problem_text b → a ≡ b
unfolding proof_problem_text
proof_problem_text-injective ProofProblem.empty ProofProblem.empty e = refl
proof_problem_text-injective (ProofProblem.too_large g m) (ProofProblem.too_large g' m') e =
    let (x, y) =
      two_numbers (codes "proof is ") b' ' (codes "bytes, max ") g m g' m'
        (below_digits b' ' (omega arith)) e in
    ap₂ ProofProblem.too_large x y
proof_problem_text-injective a b e = absurd (omega (arith, proof_place-same a b e))
