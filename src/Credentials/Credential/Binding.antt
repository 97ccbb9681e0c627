-- ===== src/Credentials/Credential/Binding.antt =====
-- What the credential leaf of crates/credentials/src/credential.rs binds: every field of the
-- credential, with the one receiver that it approves.
use zwa_protocol.Prelude.{
  ◌≡◌, ◌≤◌, ◌<◌, ◌^◌, ◌⊎◌, inl, inr, refl, sym, ◌∙◌, some, List, [], ◌∷◌, arith, length, subst,
}
use mathlib.Core.Option.{some-injective}
use zwa_protocol.Prelude.Words.{IsBytes, IsU64}
use zwa_protocol.Protocol.Field.{FieldElement, from_u64}
use zwa_protocol.Protocol.Field.Canonical.{IsCanonical, from_u64-injective}
use zwa_protocol.Commitments.Domain.{credential_meta_v1, credential_v2, as_field}
use zwa_protocol.Commitments.Poseidon.{LightPoseidon, IsCircom, hash, hash_total}
use zwa_protocol.Commitments.Trade
use zwa_protocol.Commitments.Trade.Binding.{CollidesIn, same_inputs, four_of}
use zwa_protocol.Commitments.Trade.Recipient.{
  subject_inputs, receiver_inputs, encode_receiver-injective,
}
use zwa_protocol.Credentials.Credential
use zwa_protocol.Credentials.Credential.{ActiveCredential, CredentialLeaf}

-- The values that the source's types guarantee.
pub record IsCredential (c : ActiveCredential) : Type 0 where
  pub investor_class : c.investor_class.get < 2 ^ 8
  pub jurisdiction : c.jurisdiction.get < 2 ^ 16
  pub credential_expiry : IsU64 c.credential_expiry.get
  pub nonce : IsU64 c.nonce.get
  pub approved_receiver : IsBytes 43 c.approved_receiver.as_bytes

abbrev pub meta_inputs : ActiveCredential → List FieldElement
meta_inputs c =
    as_field credential_meta_v1
    ∷ from_u64 c.investor_class.get
    ∷ from_u64 c.jurisdiction.get
    ∷ from_u64 c.credential_expiry.get
    ∷ []

abbrev pub leaf_inputs :
    ActiveCredential → FieldElement → FieldElement → FieldElement → List FieldElement
leaf_inputs c subject described receiver =
    as_field credential_v2
    ∷ c.authority_commitment.value
    ∷ subject
    ∷ described
    ∷ from_u64 c.nonce.get
    ∷ receiver
    ∷ []

-- The inputs that the leaf of a credential hashes.
abbrev pub hashed :
    ActiveCredential → FieldElement → FieldElement → FieldElement → List (List FieldElement)
hashed c s m r =
    leaf_inputs c s m r
    ∷ subject_inputs c.subject_secret
    ∷ meta_inputs c
    ∷ receiver_inputs c.approved_receiver
    ∷ []

-- The schema of a leaf, with its three intermediate values.
pub record HashesTo (p : LightPoseidon) (c : ActiveCredential) (s m r l : FieldElement)
    : Type 0 where
  pub subject : hash p (subject_inputs c.subject_secret) ≡ some s
  pub described : hash p (meta_inputs c) ≡ some m
  pub received : hash p (receiver_inputs c.approved_receiver) ≡ some r
  pub leafed : hash p (leaf_inputs c s m r) ≡ some l

-- For a hasher as `IsCircom` says: the leaf of a credential is computed without a panic, by the
-- schema at the top of credential.rs.
pub leaf-HashesTo :
    (p : LightPoseidon)
    → IsCircom p
    → (c : ActiveCredential)
    → (subject : FieldElement) × (described : FieldElement) × (receiver : FieldElement)
      × (leaf : CredentialLeaf) × (Credential.leaf p c ≡ some leaf)
      × HashesTo p c subject described receiver leaf.value
unfolding Credential.leaf Credential.meta Credential.hash4 Credential.approved_receiver_commitment
    Trade.subject_commitment Trade.receiver_commitment hash
leaf-HashesTo p circom c =
    let total : (inputs : List FieldElement)
        → 1 ≤ length inputs
        → length inputs ≤ 12
        → (e : FieldElement) × (hash p inputs ≡ some e) × IsCanonical e =
      hash_total p circom in
    let (s, hs, _) = total (subject_inputs c.subject_secret) (omega arith) (omega arith) in
    let (m, hm, _) = total (meta_inputs c) (omega arith) (omega arith) in
    let (r, hr, _) = total (receiver_inputs c.approved_receiver) (omega arith) (omega arith) in
    let (l, hl, _) = total (leaf_inputs c s m r) (omega arith) (omega arith) in
    (
      s,
      m,
      r,
      record { value = l },
      rw (hs, hm, hr, hl) refl,
      record { subject = hs; described = hm; received = hr; leafed = hl },
    )

pub six_of :
    {a b c d e f a' b' c' d' e' f' : FieldElement}
    → (a ∷ b ∷ c ∷ d ∷ e ∷ f ∷ []) ≡ (a' ∷ b' ∷ c' ∷ d' ∷ e' ∷ f' ∷ [])
    → (b ≡ b') × (c ≡ c') × (d ≡ d') × (e ≡ e') × (f ≡ f')
six_of h = (cc, cc, cc, cc, cc)

HashesTo-binds :
    (p : LightPoseidon) (a b : ActiveCredential)
    → IsCredential a
    → IsCredential b
    → {s m r s' m' r' l : FieldElement} → HashesTo p a s m r l
    → HashesTo p b s' m' r' l
    → (a ≡ b) ⊎ CollidesIn p (hashed a s m r) (hashed b s' m' r')
HashesTo-binds p a b ha hb x y = same_inputs p _ _ x.leafed y.leafed refl inl (λ parts.
    let (authority, es, em, nonce, er) = six_of parts in
    same_inputs p _ _ x.subject y.subject es (λ c. inr (inl c))
      (λ in_subject.
        same_inputs p _ _ x.described y.described em (λ c. inr (inr (inl c)))
          (λ in_meta.
            let (class, place, expiry) = four_of in_meta in
            same_inputs p _ _ x.received y.received er (λ c. inr (inr (inr (inl c))))
              (λ in_receiver.
                let secret : a.subject_secret.value ≡ b.subject_secret.value = cc in
                let receiver =
                  encode_receiver-injective a.approved_receiver b.approved_receiver
                    ha.approved_receiver hb.approved_receiver in_receiver in
                let ec =
                  from_u64-injective _ _ (omega (arith, ha.investor_class))
                    (omega (arith, hb.investor_class)) class in
                let ej =
                  from_u64-injective _ _ (omega (arith, ha.jurisdiction))
                    (omega (arith, hb.jurisdiction)) place in
                let ex = from_u64-injective _ _ ha.credential_expiry hb.credential_expiry expiry in
                let en = from_u64-injective _ _ ha.nonce hb.nonce nonce in
                inl (λ i. record {
                  authority_commitment = record { value = authority i };
                  subject_secret = record { value = secret i };
                  investor_class = record { get = ec i };
                  jurisdiction = record { get = ej i };
                  credential_expiry = record { instant = record { get = ex i } };
                  nonce = record { get = en i };
                  approved_receiver = receiver i;
                })))))

-- Some stage of the leaves of the two credentials hashes two different inputs to the same value.
pub record LeavesCollide (p : LightPoseidon) (a b : ActiveCredential) : Type 0 where
  pub s : FieldElement
  pub m : FieldElement
  pub r : FieldElement
  pub s' : FieldElement
  pub m' : FieldElement
  pub r' : FieldElement
  pub l : FieldElement
  pub left : HashesTo p a s m r l
  pub right : HashesTo p b s' m' r' l
  pub collision : CollidesIn p (hashed a s m r) (hashed b s' m' r')

-- For a hasher as `IsCircom` says: two well-formed credentials whose leaves are equal are the same
-- credential, in every field and with the same approved receiver, or at some stage of the two
-- leaves they hash two different inputs to the same value.
pub leaf-binds :
    (p : LightPoseidon)
    → IsCircom p
    → (a b : ActiveCredential) → IsCredential a
    → IsCredential b
    → Credential.leaf p a ≡ Credential.leaf p b
    → (a ≡ b) ⊎ LeavesCollide p a b
leaf-binds p circom a b ha hb e =
    let (s, m, r, x, lx, sx) = leaf-HashesTo p circom a in
    let (s', m', r', y, ly, sy) = leaf-HashesTo p circom b in
    let same : y ≡ x = some-injective _ _ (sym ly ∙ sym e ∙ lx) in
    let sy' : HashesTo p b s' m' r' x.value = subst (λ t. HashesTo p b s' m' r' t.value) same sy in
    elim (HashesTo-binds p a b ha hb sx sy') [
      | inl equal ↦ inl equal
      | inr c ↦ inr (record {
        s = s;
        m = m;
        r = r;
        s' = s';
        m' = m';
        r' = r';
        l = x.value;
        left = sx;
        right = sy';
        collision = c;
      })
    ]
