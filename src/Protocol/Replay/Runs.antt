-- ===== src/Protocol/Replay/Runs.antt =====
-- The lives of a few trades, as in the tests of crates/protocol/src/replay.rs, and the theorems at
-- them.
use zwa_protocol.Prelude.{
  ℕ, ◌≡◌, ◌≤◌, refl, none, some, List, [], ◌∷◌, ◌++◌, arith, ◌↔◌, replicate, inl, inr, ◌≢◌, ◌==◌,
  Bool-cases, ◌+◌, ap,
}
use zwa_protocol.Protocol.Error.{ok, err, expired_trade, already_consumed, invalid_state_transition}
use zwa_protocol.Protocol.Lifecycle.{
  LifecycleEvent, SettlementTxId, verified, settlement_constructed, consumed, expired,
  submission_failed, txid_beq,
}
use zwa_protocol.Protocol.Numbers.{UnixSeconds}
use zwa_protocol.Protocol.Field.{FieldElement, field_beq}
use zwa_protocol.Protocol.Values.{TradeCommitment, newtype_beq, newtype_eq, newtype_beq_iff}
use zwa_protocol.Protocol.Intent.{TradeIntent}
use zwa_protocol.Protocol.Replay
use zwa_protocol.Protocol.Replay.{TradeRecord, get_record, with_max_retries, state}
use zwa_protocol.Protocol.Replay.Calls.{
  Call, create, verify, acquire_construction, submit, confirm, consume, fail, retry_after_failure,
  exec, run,
}
use zwa_protocol.Protocol.Replay.Machine.{step_record}
use zwa_protocol.Protocol.Replay.Origin.{identity, first_intent, run-first_intent}
use mathlib.Core.Option.{map}
use zwa_protocol.Protocol.Replay.Spec.{spec_run, run-spec_run}
use zwa_protocol.Protocol.Replay.Diagram.{Edge, Accepts, step_record-Edge, step_record-Accepts_iff}
use zwa_protocol.Protocol.Replay.Expiry.{step_record-Lapses, step_record-refused}
use zwa_protocol.Protocol.Replay.Invariant.{IsValid, run-IsValid}
use zwa_protocol.Protocol.Replay.Terminal.{run_of_IsTerminal}
use zwa_protocol.Protocol.Replay.Traces.{
  construction, submission, consumption, successes, settlements_bounded,
}
use zwa_protocol.Protocol.Replay.History.{SubmittedInTime, run-SubmittedInTime}
use zwa_protocol.Protocol.Replay.Progress.{to_consumed, run-to_consumed}
use zwa_protocol.Protocol.Replay.Interleaving.{calls_on, results_on, run-interleaving}

abbrev element : ℕ → FieldElement
element tag = record { to_be_bytes = replicate 31 0 ++ (tag ∷ []) }

abbrev trade : ℕ → TradeCommitment
trade tag = record { value = element tag }

abbrev txid : ℕ → SettlementTxId
txid tag = record { as_bytes = replicate 32 tag }

abbrev at_time : ℕ → UnixSeconds
at_time n = record { get = n }

abbrev golden_expiry : ℕ
golden_expiry = 2_000_000_000

abbrev sample_intent : TradeIntent
sample_intent = record {
  offered_asset = record { as_bytes = replicate 32 0x48 };
  offered_amount = record { get = 10 };
  requested_asset = record { as_bytes = replicate 32 0xa7 };
  requested_amount = record { get = 6 };
  recipient_commitment = record { value = element 1 };
  policy_root = record { value = element 2 };
  matcher_fee = record {
    amount = record { get = 5 };
    recipient_commitment = record { value = element 3 };
  };
  nonce = record { get = 7001 };
  expiry = record { instant = at_time golden_expiry };
}

abbrev now : UnixSeconds
now = at_time 1_999_999_999

abbrev late : UnixSeconds
late = at_time 2_000_000_001

-- A submission that fails, is acknowledged and retried, and then settles.
abbrev second_try : List Call
second_try =
    create (trade 6) sample_intent
    ∷ verify (trade 6) now
    ∷ acquire_construction (trade 6) now
    ∷ submit (trade 6) (txid 1) now
    ∷ fail (trade 6) submission_failed
    ∷ retry_after_failure (trade 6) none now
    ∷ retry_after_failure (trade 6) (some (txid 1)) now
    ∷ verify (trade 6) now
    ∷ acquire_construction (trade 6) now
    ∷ acquire_construction (trade 6) now
    ∷ submit (trade 6) (txid 2) now
    ∷ confirm (trade 6)
    ∷ consume (trade 6)
    ∷ []

abbrev settled : TradeRecord
settled = record {
  commitment = trade 6;
  intent = sample_intent;
  state = consumed;
  failure_reason = none;
  prior_txid = some (txid 2);
  retry_count = 1;
}

second_try_settles : get_record (run (with_max_retries 3) second_try) (trade 6) ≡ some settled
unfolding run exec Replay.create Replay.verify Replay.acquire_construction Replay.submit
    Replay.confirm Replay.consume Replay.fail Replay.expire Replay.retry_after_failure
    Replay.verify_record Replay.acquire_record Replay.submit_record Replay.confirm_record
    Replay.consume_record Replay.fail_record Replay.expire_record Replay.retry_record
    Replay.new_record with_max_retries newtype_beq field_beq txid_beq
second_try_settles = refl

run-spec_run_example :
    (
      results_on (trade 6) (with_max_retries 3) second_try,
      get_record (run (with_max_retries 3) second_try) (trade 6),
    )
    ≡ spec_run 3 (calls_on (trade 6) second_try) none
unfolding with_max_retries
run-spec_run_example = run-spec_run (with_max_retries 3) second_try (trade 6) (omega arith)

run-first_intent_example :
    map identity (get_record (run (with_max_retries 3) second_try) (trade 6))
    ≡ map (λ intent. (trade 6, intent)) (first_intent (trade 6) second_try)
run-first_intent_example = run-first_intent 3 second_try (trade 6)

settlements_bounded_example :
    (successes construction (trade 6) (with_max_retries 3) second_try ≤ 4)
    × (successes submission (trade 6) (with_max_retries 3) second_try ≤ 4)
    × (successes consumption (trade 6) (with_max_retries 3) second_try ≤ 1)
settlements_bounded_example = settlements_bounded 3 (trade 6) second_try (omega arith)

run-SubmittedInTime_example : SubmittedInTime (trade 6) second_try settled
run-SubmittedInTime_example =
    run-SubmittedInTime 3 second_try (trade 6) settled second_try_settles refl

run_of_IsTerminal_example :
    (get_record (run (run (with_max_retries 3) second_try) second_try) (trade 6) ≡ some settled)
    × ((exec (run (run (with_max_retries 3) second_try) second_try) (verify (trade 6) late)).0
        ≡ err already_consumed)
run_of_IsTerminal_example =
    run_of_IsTerminal (run (with_max_retries 3) second_try) second_try (verify (trade 6) late)
      settled second_try_settles (inl refl)

run-IsValid_example : IsValid 3 (trade 6) settled
run-IsValid_example = run-IsValid 3 second_try (trade 6) settled (omega arith) second_try_settles

-- A trade that waits for its construction.
abbrev waiting : TradeRecord
waiting = record settled { state = verified; prior_txid = none; retry_count = 0 }

abbrev locked : TradeRecord
locked = record waiting { state = settlement_constructed }

step_record-Accepts_iff_example :
    ((r' : TradeRecord) × ((step_record 3 (acquire_construction (trade 6) now) waiting).0 ≡ ok r'))
    ↔ Accepts 3 (acquire_construction (trade 6) now) waiting
step_record-Accepts_iff_example =
    step_record-Accepts_iff 3 (acquire_construction (trade 6) now) waiting

step_record-Edge_example :
    Edge verified LifecycleEvent.acquire_construction settlement_constructed
    × ((step_record 3 (acquire_construction (trade 6) now) waiting).1 ≡ locked)
    × (locked.commitment ≡ waiting.commitment)
    × (locked.intent ≡ waiting.intent)
unfolding step_record Replay.acquire_record
step_record-Edge_example =
    step_record-Edge 3 (acquire_construction (trade 6) now) waiting {r' = locked} refl

step_record-Lapses_example :
    step_record 3 (acquire_construction (trade 6) late) waiting
    ≡ (err (expired_trade 2_000_000_000 2_000_000_001), record waiting { state = expired })
step_record-Lapses_example =
    step_record-Lapses 3 (acquire_construction (trade 6) late) waiting (refl, omega arith)

step_record-refused_example :
    step_record 3 (submit (trade 6) (txid 1) now) waiting
    ≡ (err (invalid_state_transition verified LifecycleEvent.submit), waiting)
step_record-refused_example =
    step_record-refused 3 (submit (trade 6) (txid 1) now) waiting (λ a. cc (a.0)) (λ l. cc (l.0))

abbrev stored : Replay.ReplayStore
stored = record { records = (trade 6, waiting) ∷ []; max_retries = 3 }

stored_lem : get_record stored (trade 6) ≡ some waiting
unfolding newtype_beq field_beq
stored_lem = refl

run-to_consumed_example :
    state (run stored (to_consumed (trade 6) none (txid 4) now verified)) (trade 6) ≡ some consumed
run-to_consumed_example =
    run-to_consumed stored (trade 6) (txid 4) now waiting stored_lem (λ e. cc e) (omega arith)
      (λ e. cc e)

-- Two clients, one that settles trade 6 and one that settles trade 8, in two orders.
abbrev one_by_one : List Call
one_by_one =
    create (trade 6) sample_intent
    ∷ verify (trade 6) now
    ∷ create (trade 8) sample_intent
    ∷ verify (trade 8) late
    ∷ []

abbrev in_turns : List Call
in_turns =
    create (trade 8) sample_intent
    ∷ create (trade 6) sample_intent
    ∷ verify (trade 8) late
    ∷ verify (trade 6) now
    ∷ []

get_tag : List ℕ → ℕ
get_tag [] = 0
get_tag (b ∷ bytes) = b + get_tag bytes

one_by_one-in_turns : (k : TradeCommitment) → calls_on k one_by_one ≡ calls_on k in_turns
unfolding get_tag
one_by_one-in_turns k = elim (Bool-cases (trade 6 == k)) [
  | inl six ↦ elim (Bool-cases (trade 8 == k)) [
    | inl eight ↦
        absurd
          (apart (cc ((newtype_beq_iff (trade 6) k).0 six, (newtype_beq_iff (trade 8) k).0 eight)))
    | inr other ↦ rw (six, other) refl
  ]
  | inr six ↦ elim (Bool-cases (trade 8 == k)) [
    | inl eight ↦ rw (six, eight) refl
    | inr other ↦ rw (six, other) refl
  ]
]
  where
    apart : trade 6 ≢ trade 8
    apart e = absurd (omega (arith, ap (λ t. get_tag t.value.to_be_bytes) e))

run-interleaving_example :
    (get_record (run (with_max_retries 3) one_by_one) (trade 8)
      ≡ get_record (run (with_max_retries 3) in_turns) (trade 8))
    × (results_on (trade 8) (with_max_retries 3) one_by_one
        ≡ results_on (trade 8) (with_max_retries 3) in_turns)
run-interleaving_example =
    run-interleaving (with_max_retries 3) one_by_one in_turns one_by_one-in_turns (trade 8)
