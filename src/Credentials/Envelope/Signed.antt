-- ===== src/Credentials/Envelope/Signed.antt =====
-- The signed bytes of crates/credentials/src/envelope.rs determine the payload.
use zwa_protocol.Prelude.{
  ℕ, ◌+◌, ◌≡◌, ◌≢◌, ◌≤◌, ◌↔◌, length-append, refl, sym, ap, ◌∙◌, List, ◌∷◌, ◌++◌, arith, length,
  append-injective,
}
use zwa_protocol.Prelude.Words
use zwa_protocol.Prelude.Words.{IsBytes, IsU64, to_be_bytes-IsBytes, from_be_bytes-to_be_bytes}
use zwa_protocol.Protocol.Envelope.{RootMetadata, KeyIdentifier}
use zwa_protocol.Protocol.Values.{FieldNewtype, FieldKind}
use zwa_protocol.Credentials.Envelope.{
  payload_magic, encode_payload, IssuerRootPayload, CredentialRootPayload, issuer_canonical_bytes,
  credential_canonical_bytes,
}

-- The values that the source's types guarantee of a payload's parts: numbers of 64 bits, an
-- identifier of at most 64 bytes, and a root of 32.
pub record IsPayload {kind : FieldKind} (metadata : RootMetadata) (id : KeyIdentifier)
    (root : FieldNewtype kind) : Type 0 where
  pub version : IsU64 metadata.version.get
  pub valid_from : IsU64 metadata.window.valid_from.get
  pub expires_at : IsU64 metadata.window.expires_at.get
  pub identified : length id.as_bytes ≤ 64
  pub rooted : length root.value.to_be_bytes ≡ 32

-- A number's eight bytes in front of others.
number_first :
    (v w : ℕ) {rest rest' : List ℕ}
    → IsU64 v
    → IsU64 w
    → Words.to_be_bytes 8 v ++ rest ≡ Words.to_be_bytes 8 w ++ rest'
    → (v ≡ w) × (rest ≡ rest')
number_first v w hv hw e =
    let a : IsBytes 8 (Words.to_be_bytes 8 v) = to_be_bytes-IsBytes 8 v in
    let b : IsBytes 8 (Words.to_be_bytes 8 w) = to_be_bytes-IsBytes 8 w in
    let (same, rest) =
      append-injective (Words.to_be_bytes 8 v) (Words.to_be_bytes 8 w) (a.0 ∙ sym b.0) e in
    (
      sym (from_be_bytes-to_be_bytes 8 v (omega arith))
          ∙ ap Words.from_be_bytes same
          ∙ from_be_bytes-to_be_bytes 8 w (omega arith),
      rest,
    )

cons_of : {x y : ℕ} {xs ys : List ℕ} → (x ∷ xs) ≡ (y ∷ ys) → (x ≡ y) × (xs ≡ ys)
cons_of e = (cc, cc)

-- Behind the magic, every part of a payload can be read off its bytes.
encode_payload-injective :
    (k k' v v' f f' e e' : ℕ) (id id' root root' : List ℕ)
    → IsU64 v
    → IsU64 v'
    → IsU64 f
    → IsU64 f'
    → IsU64 e
    → IsU64 e'
    → length id ≤ 64
    → length id' ≤ 64
    → encode_payload k v f e id root ≡ encode_payload k' v' f' e' id' root'
    → (k ≡ k') × (v ≡ v') × (f ≡ f') × (e ≡ e') × (id ≡ id') × (root ≡ root')
unfolding encode_payload
encode_payload-injective k k' v v' f f' e e' id id' root root' hv hv' hf hf' he he' hi hi' same =
    let (magic, body) = append-injective payload_magic payload_magic refl same in
    let (kind, numbers) = cons_of body in
    let (version, windows) = number_first v v' hv hv' numbers in
    let (from, until) = number_first f f' hf hf' windows in
    let (expiry, tail) = number_first e e' he he' until in
    let (len, last) = cons_of tail in
    let (identifier, scalar) = append-injective id id' (omega arith) last in
    (kind, version, from, expiry, identifier, scalar)

-- Equal numbers, bytes and roots make equal parts.
metadata_path :
    (m m' : RootMetadata)
    → m.version.get ≡ m'.version.get
    → m.window.valid_from.get ≡ m'.window.valid_from.get
    → m.window.expires_at.get ≡ m'.window.expires_at.get
    → m ≡ m'
metadata_path m m' v f e = λ i. record {
  version = record { get = v i };
  window = record { valid_from = record { get = f i }; expires_at = record { get = e i } };
}

-- The signed bytes determine the payload: two issuer payloads with the same bytes are equal in
-- every field, and so are two credential payloads, and no issuer payload has the bytes of a
-- credential payload. The parts are in the ranges of their types.
pub canonical_bytes-injective :
    (a b : IssuerRootPayload) (c d : CredentialRootPayload)
    → IsPayload a.metadata a.issuer_id.inner a.root
    → IsPayload b.metadata b.issuer_id.inner b.root
    → IsPayload c.metadata c.authority_id.inner c.root
    → IsPayload d.metadata d.authority_id.inner d.root
    → ((issuer_canonical_bytes a ≡ issuer_canonical_bytes b) ↔ (a ≡ b))
      × ((credential_canonical_bytes c ≡ credential_canonical_bytes d) ↔ (c ≡ d))
      × (issuer_canonical_bytes a ≢ credential_canonical_bytes c)
unfolding issuer_canonical_bytes credential_canonical_bytes
canonical_bytes-injective a b c d ha hb hc hd = (
  (issuers, λ e. ap issuer_canonical_bytes e),
  (credentials, λ e. ap credential_canonical_bytes e),
  apart,
)
  where
    issuers : issuer_canonical_bytes a ≡ issuer_canonical_bytes b → a ≡ b
    issuers same =
        let (k, v, f, e, id, root) =
          encode_payload-injective _ _ _ _ _ _ _ _ _ _ _ _ ha.version hb.version ha.valid_from
            hb.valid_from ha.expires_at hb.expires_at ha.identified hb.identified same in
        let metadata : a.metadata ≡ b.metadata = metadata_path a.metadata b.metadata v f e in
        λ i. record {
          root = record { value = record { to_be_bytes = root i } };
          issuer_id = record { inner = record { as_bytes = id i } };
          metadata = metadata i;
        }

    credentials : credential_canonical_bytes c ≡ credential_canonical_bytes d → c ≡ d
    credentials same =
        let (k, v, f, e, id, root) =
          encode_payload-injective _ _ _ _ _ _ _ _ _ _ _ _ hc.version hd.version hc.valid_from
            hd.valid_from hc.expires_at hd.expires_at hc.identified hd.identified same in
        let metadata : c.metadata ≡ d.metadata = metadata_path c.metadata d.metadata v f e in
        λ i. record {
          root = record { value = record { to_be_bytes = root i } };
          authority_id = record { inner = record { as_bytes = id i } };
          metadata = metadata i;
        }

    apart : issuer_canonical_bytes a ≢ credential_canonical_bytes c
    apart same =
        let (k, v, f, e, id, root) =
          encode_payload-injective _ _ _ _ _ _ _ _ _ _ _ _ ha.version hc.version ha.valid_from
            hc.valid_from ha.expires_at hc.expires_at ha.identified hc.identified same in
        absurd (omega (arith, k))

-- The bytes have the layout of the table in envelope.rs: 66 bytes and those of the identifier.
pub length-canonical_bytes :
    (a : IssuerRootPayload)
    → IsPayload a.metadata a.issuer_id.inner a.root
    → length (issuer_canonical_bytes a) ≡ 66 + length a.issuer_id.inner.as_bytes
unfolding issuer_canonical_bytes encode_payload Words.to_be_bytes Words.to_le_bytes
length-canonical_bytes a h =
    omega (arith, h.rooted, length-append a.issuer_id.inner.as_bytes a.root.value.to_be_bytes)
