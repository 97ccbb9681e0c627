-- ===== src/Protocol/Error.antt =====
-- crates/protocol/src/error.rs: every rejection as a value, and `Result`.
use zwa_protocol.Prelude.{ℕ, ◌≡◌, refl, Bool, true, false, List}
use zwa_protocol.Protocol.Lifecycle.{TradeLifecycleState, LifecycleEvent}

pub data FieldEncodingProblem : Type 0 where
  wrong_length not_reduced not_decimal decimal_overflow : FieldEncodingProblem

pub data LimbKind : Type 0 where
  asset_base_lo asset_base_hi receiver_limb0 receiver_limb1 receiver_limb2 : LimbKind

pub data CredentialCodeField : Type 0 where
  investor_class jurisdiction : CredentialCodeField

pub data AmountField : Type 0 where
  offered_amount requested_amount matcher_fee : AmountField

pub data TimestampProblem : Type 0 where
  window_inverted overflow : TimestampProblem

pub data RootEnvelopeProblem : Type 0 where
  missing_authority_identifier : RootEnvelopeProblem
  identifier_too_long : (got max : ℕ) → RootEnvelopeProblem
  signature_missing : RootEnvelopeProblem
  signature_too_long : (got max : ℕ) → RootEnvelopeProblem
  not_yet_valid : (valid_from now : ℕ) → RootEnvelopeProblem
  expired : (expires_at now : ℕ) → RootEnvelopeProblem

pub data ProofProblem : Type 0 where
  empty : ProofProblem
  too_large : (got max : ℕ) → ProofProblem

-- A `String` is the list of its bytes.
pub data ProtocolError : Type 0 where
  invalid_asset_base : (got : ℕ) → ProtocolError
  invalid_receiver : (got : ℕ) → ProtocolError
  invalid_field_encoding : (reason : FieldEncodingProblem) → ProtocolError
  limb_out_of_range : (limb : LimbKind) (bits : ℕ) → ProtocolError
  invalid_amount : (field : AmountField) → ProtocolError
  credential_code_out_of_range : (code : CredentialCodeField) (bits : ℕ) → ProtocolError
  invalid_timestamp : (reason : TimestampProblem) → ProtocolError
  expired_trade : (expiry now : ℕ) → ProtocolError
  commitment_mismatch : (expected actual : List ℕ) → ProtocolError
  unsupported_poseidon_arity : (arity : ℕ) → ProtocolError
  invalid_root_envelope : (reason : RootEnvelopeProblem) → ProtocolError
  unsupported_version : (got : ℕ) → ProtocolError
  invalid_proof : (reason : ProofProblem) → ProtocolError
  invalid_state_transition :
      (from : TradeLifecycleState) (attempted : LifecycleEvent) → ProtocolError
  already_consumed : ProtocolError
  unknown_trade : ProtocolError
  unreconciled_prior_submission : ProtocolError
  retry_budget_exhausted : (attempts max : ℕ) → ProtocolError

pub data Result {ℓ} (A : Type ℓ) : Type ℓ where
  ok : A → Result A
  err : ProtocolError → Result A

infixl 5 ◌>>=◌ ◌>>◌
abbrev pub ◌>>=◌ {ℓ κ} : {A : Type ℓ} {B : Type κ} → Result A → (A → Result B) → Result B
ok value >>= next = next value
err error >>= next = err error

abbrev pub ◌>>◌ {ℓ} : {B : Type ℓ} → Result (Unit {0}) → Result B → Result B
m >> k = m >>= λ _. k

abbrev pub map_ok {ℓ κ} : {A : Type ℓ} {B : Type κ} → (A → B) → Result A → Result B
map_ok f (ok a) = ok (f a)
map_ok f (err e) = err e

abbrev pub is_ok {ℓ} : {A : Type ℓ} → Result A → Bool
is_ok (ok a) = true
is_ok (err e) = false

pub ok_of_is_ok {ℓ} : {A : Type ℓ} (r : Result A) → is_ok r ≡ true → (a : A) × (r ≡ ok a)
ok_of_is_ok (ok a) h = (a, refl)
ok_of_is_ok (err e) h = cc
