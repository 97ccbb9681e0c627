-- ===== src/Protocol/Display/Heads.antt =====
-- The texts of `Display` in crates/protocol/src/error.rs begin differently.
use zwa_protocol.Prelude.{
  ℕ, ◌≡◌, refl, sym, ap, ◌∙◌, List, [], ◌∷◌, take, ◌==◌, nat_eq, list_eq, if◌then◌else◌, ltb,
}
use zwa_protocol.Protocol.Error.{LimbKind, CredentialCodeField, AmountField, ProtocolError}
use zwa_protocol.Protocol.Display.{codes, error_text}

-- The place of the first entry of a text.
abbrev pub place_of : List (List ℕ × ℕ) → List ℕ → ℕ
place_of [] t = 99
place_of ((head, place) ∷ heads) t =
    let rest = place_of heads t in if head == t then place else rest

-- The first 15 bytes of an error.
abbrev error_heads : List (List ℕ × ℕ)
error_heads =
    (codes "AssetBase must ", 0)
    ∷ (codes "Orchard raw pay", 1)
    ∷ (codes "invalid canonic", 2)
    ∷ (codes "AssetBase lo li", 3)
    ∷ (codes "AssetBase hi li", 4)
    ∷ (codes "receiver limb 0", 5)
    ∷ (codes "receiver limb 1", 6)
    ∷ (codes "receiver limb 2", 7)
    ∷ (codes "offered amount ", 8)
    ∷ (codes "requested amoun", 9)
    ∷ (codes "matcher fee amo", 10)
    ∷ (codes "investor class ", 11)
    ∷ (codes "jurisdiction ex", 12)
    ∷ (codes "invalid timesta", 13)
    ∷ (codes "trade expired a", 14)
    ∷ (codes "commitment mism", 15)
    ∷ (codes "unsupported Pos", 16)
    ∷ (codes "invalid root en", 17)
    ∷ (codes "unsupported ver", 18)
    ∷ (codes "invalid proof e", 19)
    ∷ (codes "illegal trade l", 20)
    ∷ (codes "trade commitmen", 21)
    ∷ (codes "no lifecycle re", 22)
    ∷ (codes "retry requires ", 23)
    ∷ (codes "retry budget ex", 24)
    ∷ []

abbrev pub error_place : ProtocolError → ℕ
error_place (ProtocolError.invalid_asset_base got) = 0
error_place (ProtocolError.invalid_receiver got) = 1
error_place (ProtocolError.invalid_field_encoding reason) = 2
error_place (ProtocolError.limb_out_of_range LimbKind.asset_base_lo bits) = 3
error_place (ProtocolError.limb_out_of_range LimbKind.asset_base_hi bits) = 4
error_place (ProtocolError.limb_out_of_range LimbKind.receiver_limb0 bits) = 5
error_place (ProtocolError.limb_out_of_range LimbKind.receiver_limb1 bits) = 6
error_place (ProtocolError.limb_out_of_range LimbKind.receiver_limb2 bits) = 7
error_place (ProtocolError.invalid_amount AmountField.offered_amount) = 8
error_place (ProtocolError.invalid_amount AmountField.requested_amount) = 9
error_place (ProtocolError.invalid_amount AmountField.matcher_fee) = 10
error_place (ProtocolError.credential_code_out_of_range CredentialCodeField.investor_class bits) =
    11
error_place (ProtocolError.credential_code_out_of_range CredentialCodeField.jurisdiction bits) = 12
error_place (ProtocolError.invalid_timestamp reason) = 13
error_place (ProtocolError.expired_trade expiry now) = 14
error_place (ProtocolError.commitment_mismatch expected actual) = 15
error_place (ProtocolError.unsupported_poseidon_arity arity) = 16
error_place (ProtocolError.invalid_root_envelope reason) = 17
error_place (ProtocolError.unsupported_version got) = 18
error_place (ProtocolError.invalid_proof reason) = 19
error_place (ProtocolError.invalid_state_transition from attempted) = 20
error_place ProtocolError.already_consumed = 21
error_place ProtocolError.unknown_trade = 22
error_place ProtocolError.unreconciled_prior_submission = 23
error_place (ProtocolError.retry_budget_exhausted attempts max) = 24

error_head : (e : ProtocolError) → place_of error_heads (take 15 (error_text e)) ≡ error_place e
unfolding error_text
error_head (ProtocolError.invalid_asset_base got) = refl
error_head (ProtocolError.invalid_receiver got) = refl
error_head (ProtocolError.invalid_field_encoding reason) = refl
error_head (ProtocolError.limb_out_of_range LimbKind.asset_base_lo bits) = refl
error_head (ProtocolError.limb_out_of_range LimbKind.asset_base_hi bits) = refl
error_head (ProtocolError.limb_out_of_range LimbKind.receiver_limb0 bits) = refl
error_head (ProtocolError.limb_out_of_range LimbKind.receiver_limb1 bits) = refl
error_head (ProtocolError.limb_out_of_range LimbKind.receiver_limb2 bits) = refl
error_head (ProtocolError.invalid_amount AmountField.offered_amount) = refl
error_head (ProtocolError.invalid_amount AmountField.requested_amount) = refl
error_head (ProtocolError.invalid_amount AmountField.matcher_fee) = refl
error_head (ProtocolError.credential_code_out_of_range CredentialCodeField.investor_class bits) =
    refl
error_head (ProtocolError.credential_code_out_of_range CredentialCodeField.jurisdiction bits) = refl
error_head (ProtocolError.invalid_timestamp reason) = refl
error_head (ProtocolError.expired_trade expiry now) = refl
error_head (ProtocolError.commitment_mismatch expected actual) = refl
error_head (ProtocolError.unsupported_poseidon_arity arity) = refl
error_head (ProtocolError.invalid_root_envelope reason) = refl
error_head (ProtocolError.unsupported_version got) = refl
error_head (ProtocolError.invalid_proof reason) = refl
error_head (ProtocolError.invalid_state_transition from attempted) = refl
error_head ProtocolError.already_consumed = refl
error_head ProtocolError.unknown_trade = refl
error_head ProtocolError.unreconciled_prior_submission = refl
error_head (ProtocolError.retry_budget_exhausted attempts max) = refl

pub error_place-same :
    (a b : ProtocolError) → error_text a ≡ error_text b → error_place a ≡ error_place b
error_place-same a b e =
    sym (error_head a) ∙ ap (λ t. place_of error_heads (take 15 t)) e ∙ error_head b

-- The kind of an error, whatever it carries.
abbrev pub error_kind : ProtocolError → ℕ
error_kind (ProtocolError.invalid_asset_base got) = 0
error_kind (ProtocolError.invalid_receiver got) = 1
error_kind (ProtocolError.invalid_field_encoding reason) = 2
error_kind (ProtocolError.limb_out_of_range limb bits) = 3
error_kind (ProtocolError.invalid_amount field) = 8
error_kind (ProtocolError.credential_code_out_of_range field bits) = 11
error_kind (ProtocolError.invalid_timestamp reason) = 13
error_kind (ProtocolError.expired_trade expiry now) = 14
error_kind (ProtocolError.commitment_mismatch expected actual) = 15
error_kind (ProtocolError.unsupported_poseidon_arity arity) = 16
error_kind (ProtocolError.invalid_root_envelope reason) = 17
error_kind (ProtocolError.unsupported_version got) = 18
error_kind (ProtocolError.invalid_proof reason) = 19
error_kind (ProtocolError.invalid_state_transition from attempted) = 20
error_kind ProtocolError.already_consumed = 21
error_kind ProtocolError.unknown_trade = 22
error_kind ProtocolError.unreconciled_prior_submission = 23
error_kind (ProtocolError.retry_budget_exhausted attempts max) = 24

abbrev kind_at : ℕ → ℕ
kind_at place =
    if ltb place 3
    then place
    else if ltb place 8
    then 3
    else if ltb place 11
    then 8
    else if ltb place 13
    then 11
    else place

error_kind-place : (e : ProtocolError) → kind_at (error_place e) ≡ error_kind e
error_kind-place (ProtocolError.invalid_asset_base got) = refl
error_kind-place (ProtocolError.invalid_receiver got) = refl
error_kind-place (ProtocolError.invalid_field_encoding reason) = refl
error_kind-place (ProtocolError.limb_out_of_range LimbKind.asset_base_lo bits) = refl
error_kind-place (ProtocolError.limb_out_of_range LimbKind.asset_base_hi bits) = refl
error_kind-place (ProtocolError.limb_out_of_range LimbKind.receiver_limb0 bits) = refl
error_kind-place (ProtocolError.limb_out_of_range LimbKind.receiver_limb1 bits) = refl
error_kind-place (ProtocolError.limb_out_of_range LimbKind.receiver_limb2 bits) = refl
error_kind-place (ProtocolError.invalid_amount AmountField.offered_amount) = refl
error_kind-place (ProtocolError.invalid_amount AmountField.requested_amount) = refl
error_kind-place (ProtocolError.invalid_amount AmountField.matcher_fee) = refl
error_kind-place
      (ProtocolError.credential_code_out_of_range CredentialCodeField.investor_class bits) =
    refl
error_kind-place
      (ProtocolError.credential_code_out_of_range CredentialCodeField.jurisdiction bits) =
    refl
error_kind-place (ProtocolError.invalid_timestamp reason) = refl
error_kind-place (ProtocolError.expired_trade expiry now) = refl
error_kind-place (ProtocolError.commitment_mismatch expected actual) = refl
error_kind-place (ProtocolError.unsupported_poseidon_arity arity) = refl
error_kind-place (ProtocolError.invalid_root_envelope reason) = refl
error_kind-place (ProtocolError.unsupported_version got) = refl
error_kind-place (ProtocolError.invalid_proof reason) = refl
error_kind-place (ProtocolError.invalid_state_transition from attempted) = refl
error_kind-place ProtocolError.already_consumed = refl
error_kind-place ProtocolError.unknown_trade = refl
error_kind-place ProtocolError.unreconciled_prior_submission = refl
error_kind-place (ProtocolError.retry_budget_exhausted attempts max) = refl

pub error_kind-same :
    (a b : ProtocolError) → error_text a ≡ error_text b → error_kind a ≡ error_kind b
error_kind-same a b e =
    sym (error_kind-place a) ∙ ap kind_at (error_place-same a b e) ∙ error_kind-place b
