-- ===== src/Circuits/Eligibility/Trees.antt =====
-- The two trees that an eligibility proof is checked against: that of the leaves of credentials, and
-- that of the classes and jurisdictions of a policy (`computePolicyLeaf` of
-- circuits/shared/eligibility-v1.js).
use zwa_protocol.Prelude.{◌<◌, ◌^◌, Option, some, List, [], ◌∷◌, ◌>>=◌}
use zwa_protocol.Protocol.Field.{FieldElement, from_u64}
use zwa_protocol.Commitments.Poseidon.{LightPoseidon, hash}
use zwa_protocol.Credentials.Values.{InvestorClass, Jurisdiction}
use zwa_protocol.Credentials.Credential
use zwa_protocol.Credentials.Credential.{ActiveCredential}
use zwa_protocol.Circuits.Eligibility.{domain_eligibility_policy_v1}

-- A pair that a policy allows.
pub record Allowed : Type 0 where
  pub investor_class : InvestorClass
  pub jurisdiction : Jurisdiction

-- The ranges of `u8` and `u16`.
pub record IsAllowed (a : Allowed) : Type 0 where
  pub investor_class : a.investor_class.get < 2 ^ 8
  pub jurisdiction : a.jurisdiction.get < 2 ^ 16

abbrev pub policy_inputs : Allowed → List FieldElement
policy_inputs a =
    domain_eligibility_policy_v1 ∷ from_u64 a.investor_class.get ∷ from_u64 a.jurisdiction.get ∷ []

-- `assertU64` holds of the codes.
abbrev pub compute_policy_leaf : LightPoseidon → Allowed → Option FieldElement
compute_policy_leaf p a = hash p (policy_inputs a)

abbrev pub credential_leaf : LightPoseidon → ActiveCredential → Option FieldElement
credential_leaf p c = Credential.leaf p c >>= λ l. some l.value

abbrev pub allowed_of : ActiveCredential → Allowed
allowed_of c = record { investor_class = c.investor_class; jurisdiction = c.jurisdiction }
