-- ===== src/Protocol/Display/Words.antt =====
-- The fixed texts of `Display` in crates/protocol/src/error.rs and lifecycle.rs tell the values apart.
use zwa_protocol.Prelude.{
  ℕ, ◌≡◌, ◌≤◌, refl, sym, ap, ◌∙◌, Option, none, some, List, [], ◌∷◌, arith, All, ◌==◌, nat_eq,
  list_eq, if◌then◌else◌,
}
use mathlib.Core.Option.{some-injective}
use zwa_protocol.Protocol.Lifecycle.{TradeLifecycleState, LifecycleEvent, FailureReason}
use zwa_protocol.Protocol.Error.{FieldEncodingProblem, TimestampProblem}
use zwa_protocol.Protocol.Display.{
  state_text, event_text, failure_text, field_problem_text, timestamp_text,
}

module _ {A : Type 0} (text : A → List ℕ) where
  -- The first value with a text.
  abbrev read_back : List A → List ℕ → Option A
  read_back [] t = none
  read_back (a ∷ values) t = let rest = read_back values t in if text a == t then some a else rest

  -- Texts that can be read back are different.
  injective_of :
      (values : List A)
      → ((a : A) → read_back values (text a) ≡ some a)
      → (a b : A) → text a ≡ text b
      → a ≡ b
  injective_of values back a b e =
      some-injective a b (sym (back a) ∙ ap (read_back values) e ∙ back b)

abbrev states : List TradeLifecycleState
states =
    TradeLifecycleState.created ∷ TradeLifecycleState.verified
    ∷ TradeLifecycleState.settlement_constructed ∷ TradeLifecycleState.submitted
    ∷ TradeLifecycleState.confirmed ∷ TradeLifecycleState.consumed ∷ TradeLifecycleState.expired
    ∷ TradeLifecycleState.failed ∷ []

state_text_back : (a : TradeLifecycleState) → read_back state_text states (state_text a) ≡ some a
state_text_back TradeLifecycleState.created = refl
state_text_back TradeLifecycleState.verified = refl
state_text_back TradeLifecycleState.settlement_constructed = refl
state_text_back TradeLifecycleState.submitted = refl
state_text_back TradeLifecycleState.confirmed = refl
state_text_back TradeLifecycleState.consumed = refl
state_text_back TradeLifecycleState.expired = refl
state_text_back TradeLifecycleState.failed = refl

pub state_text-injective : (a b : TradeLifecycleState) → state_text a ≡ state_text b → a ≡ b
state_text-injective = injective_of state_text states state_text_back

abbrev events : List LifecycleEvent
events =
    LifecycleEvent.create ∷ LifecycleEvent.verify ∷ LifecycleEvent.acquire_construction
    ∷ LifecycleEvent.submit ∷ LifecycleEvent.confirm ∷ LifecycleEvent.consume ∷ LifecycleEvent.fail
    ∷ LifecycleEvent.expire ∷ LifecycleEvent.retry ∷ []

event_text_back : (a : LifecycleEvent) → read_back event_text events (event_text a) ≡ some a
event_text_back LifecycleEvent.create = refl
event_text_back LifecycleEvent.verify = refl
event_text_back LifecycleEvent.acquire_construction = refl
event_text_back LifecycleEvent.submit = refl
event_text_back LifecycleEvent.confirm = refl
event_text_back LifecycleEvent.consume = refl
event_text_back LifecycleEvent.fail = refl
event_text_back LifecycleEvent.expire = refl
event_text_back LifecycleEvent.retry = refl

pub event_text-injective : (a b : LifecycleEvent) → event_text a ≡ event_text b → a ≡ b
event_text-injective = injective_of event_text events event_text_back

abbrev failures : List FailureReason
failures =
    FailureReason.verification_rejected ∷ FailureReason.construction_failed
    ∷ FailureReason.submission_failed ∷ FailureReason.confirmation_failed ∷ []

failure_text_back : (a : FailureReason) → read_back failure_text failures (failure_text a) ≡ some a
failure_text_back FailureReason.verification_rejected = refl
failure_text_back FailureReason.construction_failed = refl
failure_text_back FailureReason.submission_failed = refl
failure_text_back FailureReason.confirmation_failed = refl

failure_text-injective : (a b : FailureReason) → failure_text a ≡ failure_text b → a ≡ b
failure_text-injective = injective_of failure_text failures failure_text_back

abbrev field_problems : List FieldEncodingProblem
field_problems =
    FieldEncodingProblem.wrong_length ∷ FieldEncodingProblem.not_reduced
    ∷ FieldEncodingProblem.not_decimal ∷ FieldEncodingProblem.decimal_overflow ∷ []

field_problem_text_back :
    (a : FieldEncodingProblem)
    → read_back field_problem_text field_problems (field_problem_text a) ≡ some a
field_problem_text_back FieldEncodingProblem.wrong_length = refl
field_problem_text_back FieldEncodingProblem.not_reduced = refl
field_problem_text_back FieldEncodingProblem.not_decimal = refl
field_problem_text_back FieldEncodingProblem.decimal_overflow = refl

pub field_problem_text-injective :
    (a b : FieldEncodingProblem) → field_problem_text a ≡ field_problem_text b → a ≡ b
field_problem_text-injective =
    injective_of field_problem_text field_problems field_problem_text_back

abbrev timestamp_problems : List TimestampProblem
timestamp_problems = TimestampProblem.window_inverted ∷ TimestampProblem.overflow ∷ []

timestamp_text_back :
    (a : TimestampProblem) → read_back timestamp_text timestamp_problems (timestamp_text a) ≡ some a
timestamp_text_back TimestampProblem.window_inverted = refl
timestamp_text_back TimestampProblem.overflow = refl

pub timestamp_text-injective :
    (a b : TimestampProblem) → timestamp_text a ≡ timestamp_text b → a ≡ b
timestamp_text-injective = injective_of timestamp_text timestamp_problems timestamp_text_back

-- No text of a state has a space.
pub state_text_letters : (s : TradeLifecycleState) → All (λ b. 65 ≤ b) (state_text s)
state_text_letters TradeLifecycleState.created = omega arith
state_text_letters TradeLifecycleState.verified = omega arith
state_text_letters TradeLifecycleState.settlement_constructed = omega arith
state_text_letters TradeLifecycleState.submitted = omega arith
state_text_letters TradeLifecycleState.confirmed = omega arith
state_text_letters TradeLifecycleState.consumed = omega arith
state_text_letters TradeLifecycleState.expired = omega arith
state_text_letters TradeLifecycleState.failed = omega arith
