-- ===== src/Commitments/Domain/Labels.antt =====
-- The labels of the table in docs/trade-commitment-v1.md, and the tags of
-- crates/commitments/src/domain.rs against them.
use zwa_protocol.Prelude.{
  ℕ, ◌≡◌, ◌<◌, ◌^◌, refl, sym, ap, ◌∙◌, ◌==◌, nat_eq, if◌then◌else◌, arith, List, [], ◌∷◌,
}
use zwa_protocol.Prelude.Words
use zwa_protocol.Protocol.Field.Canonical.{from_u64-injective}
use zwa_protocol.Commitments.Domain.{
  Domain, asset_v1, fee_v1, trade_a_v1, trade_b_v1, trade_meta_v1, trade_v1, zec_asset_tag,
  subject_v1, receiver_v1, recipient_binding_v1, fee_recipient_v1, recipient_v1, credential_meta_v1,
  credential_v2, tag, as_field,
}

-- The ASCII label of a domain.
abbrev pub label : Domain → List ℕ
label asset_v1 = b'A' ∷ b'S' ∷ b'S' ∷ b'E' ∷ b'T' ∷ b'V' ∷ b'1' ∷ []
label fee_v1 = b'F' ∷ b'E' ∷ b'E' ∷ b'V' ∷ b'1' ∷ []
label trade_a_v1 = b'T' ∷ b'R' ∷ b'D' ∷ b'A' ∷ b'_' ∷ b'V' ∷ b'1' ∷ []
label trade_b_v1 = b'T' ∷ b'R' ∷ b'D' ∷ b'B' ∷ b'_' ∷ b'V' ∷ b'1' ∷ []
label trade_meta_v1 = b'T' ∷ b'R' ∷ b'D' ∷ b'M' ∷ b'_' ∷ b'V' ∷ b'1' ∷ []
label trade_v1 = b'T' ∷ b'R' ∷ b'A' ∷ b'D' ∷ b'E' ∷ b'_' ∷ b'V' ∷ b'1' ∷ []
label zec_asset_tag = b'Z' ∷ b'E' ∷ b'C' ∷ []
label subject_v1 = b'S' ∷ b'U' ∷ b'B' ∷ b'J' ∷ b'E' ∷ b'C' ∷ b'T' ∷ b'1' ∷ []
label receiver_v1 = b'R' ∷ b'E' ∷ b'C' ∷ b'E' ∷ b'I' ∷ b'V' ∷ b'R' ∷ b'1' ∷ []
label recipient_binding_v1 = b'R' ∷ b'C' ∷ b'P' ∷ b'B' ∷ b'I' ∷ b'N' ∷ b'D' ∷ b'1' ∷ []
label fee_recipient_v1 = b'F' ∷ b'R' ∷ b'C' ∷ b'P' ∷ b'T' ∷ b'V' ∷ b'1' ∷ []
label recipient_v1 = b'R' ∷ b'C' ∷ b'P' ∷ b'T' ∷ b'V' ∷ b'1' ∷ []
label credential_meta_v1 = b'C' ∷ b'R' ∷ b'E' ∷ b'D' ∷ b'M' ∷ b'E' ∷ b'T' ∷ b'A' ∷ []
label credential_v2 = b'C' ∷ b'R' ∷ b'E' ∷ b'D' ∷ b'_' ∷ b'V' ∷ b'2' ∷ []

-- Every tag is its ASCII label read as a big-endian number of 64 bits.
pub tag-label : (d : Domain) → (tag d ≡ Words.from_be_bytes (label d)) × (tag d < 2 ^ 64)
unfolding tag Words.from_be_bytes
tag-label asset_v1 = (refl, omega arith)
tag-label fee_v1 = (refl, omega arith)
tag-label trade_a_v1 = (refl, omega arith)
tag-label trade_b_v1 = (refl, omega arith)
tag-label trade_meta_v1 = (refl, omega arith)
tag-label trade_v1 = (refl, omega arith)
tag-label zec_asset_tag = (refl, omega arith)
tag-label subject_v1 = (refl, omega arith)
tag-label receiver_v1 = (refl, omega arith)
tag-label recipient_binding_v1 = (refl, omega arith)
tag-label fee_recipient_v1 = (refl, omega arith)
tag-label recipient_v1 = (refl, omega arith)
tag-label credential_meta_v1 = (refl, omega arith)
tag-label credential_v2 = (refl, omega arith)

-- The domain of a tag.
untag : ℕ → Domain
untag n =
    if n == 18387490596738609
    then asset_v1
    else if n == 301809882673
    then fee_v1
    else if n == 23734351151715889
    then trade_a_v1
    else if n == 23734351168493105
    then trade_b_v1
    else if n == 23734351353042481
    then trade_meta_v1
    else if n == 6075990608753677873
    then trade_v1
    else if n == 5915971
    then zec_asset_tag
    else if n == 6004778564925477937
    then subject_v1
    else if n == 5928218449365324337
    then receiver_v1
    else if n == 5927669780177634353
    then recipient_binding_v1
    else if n == 19793697433736753
    then fee_recipient_v1
    else if n == 90449063990833
    then recipient_v1
    else if n == 4851015908287927361
    then credential_meta_v1
    else credential_v2

untag-tag : (d : Domain) → untag (tag d) ≡ d
unfolding tag untag
untag-tag asset_v1 = refl
untag-tag fee_v1 = refl
untag-tag trade_a_v1 = refl
untag-tag trade_b_v1 = refl
untag-tag trade_meta_v1 = refl
untag-tag trade_v1 = refl
untag-tag zec_asset_tag = refl
untag-tag subject_v1 = refl
untag-tag receiver_v1 = refl
untag-tag recipient_binding_v1 = refl
untag-tag fee_recipient_v1 = refl
untag-tag recipient_v1 = refl
untag-tag credential_meta_v1 = refl
untag-tag credential_v2 = refl

-- The tags, and with them the first inputs of the hashes, tell the domains apart.
pub as_field-injective : (d e : Domain) → as_field d ≡ as_field e → d ≡ e
unfolding as_field
as_field-injective d e same =
    sym (untag-tag d)
    ∙ ap untag (from_u64-injective (tag d) (tag e) (tag-label d).1 (tag-label e).1 same)
    ∙ untag-tag e
