-- ===== src/Protocol/Replay/Spec.antt =====
-- The life of one trade as tables, apart from the code: the diagram, the calls that need an
-- unexpired trade, what else a call asks for, and what it leaves in each field. The store of
-- crates/protocol/src/replay.rs is compared with these tables.
use zwa_protocol.Prelude.{
  ℕ, ◌+◌, ◌<◌, ◌^◌, ◌≡◌, refl, ◌∙◌, ap, ap₂, arith, Bool, true, false, ltb, ◌&&◌, if◌then◌else◌,
  ◌==◌, opt_eq, Option, none, some, List, [], ◌∷◌,
}
use zwa_protocol.Protocol.Error.{Result, ok, err, expired_trade, unknown_trade}
use zwa_protocol.Protocol.Lifecycle.{
  TradeLifecycleState, LifecycleEvent, FailureReason, SettlementTxId, created, verified,
  settlement_constructed, submitted, confirmed, consumed, expired, failed, txid_eq,
}
use zwa_protocol.Protocol.Values.{TradeCommitment}
use zwa_protocol.Protocol.Replay
use zwa_protocol.Protocol.Replay.{TradeRecord, ReplayStore, get_record}
use zwa_protocol.Protocol.Replay.Calls.{
  Call, create, verify, acquire_construction, submit, fail, expire, retry_after_failure, event, run,
}
use zwa_protocol.Protocol.Replay.Machine.{step_record, step, run-run_machine}
use zwa_protocol.Protocol.Replay.Expiry.{time, refusal}
use zwa_protocol.Protocol.Replay.Interleaving.{
  calls_on, results_on, machine, machine_results, run_machine-machine, results_on-machine_results,
}

-- The diagram: where an event leads from a state.
abbrev target : LifecycleEvent → TradeLifecycleState → Option TradeLifecycleState
target LifecycleEvent.verify created = some verified
target LifecycleEvent.acquire_construction verified = some settlement_constructed
target LifecycleEvent.submit settlement_constructed = some submitted
target LifecycleEvent.confirm submitted = some confirmed
target LifecycleEvent.consume confirmed = some consumed
target LifecycleEvent.fail created = some failed
target LifecycleEvent.fail verified = some failed
target LifecycleEvent.fail settlement_constructed = some failed
target LifecycleEvent.fail submitted = some failed
target LifecycleEvent.expire created = some expired
target LifecycleEvent.expire verified = some expired
target LifecycleEvent.expire settlement_constructed = some expired
target LifecycleEvent.expire failed = some expired
target LifecycleEvent.retry failed = some created
target _ _ = none

-- The calls that start new work on a trade.
abbrev starts_work : Call → Bool
starts_work (verify _ _) = true
starts_work (acquire_construction _ _) = true
starts_work (submit _ _ _) = true
starts_work (retry_after_failure _ _ _) = true
starts_work _ = false

abbrev past_expiry : Call → TradeRecord → Bool
past_expiry c r = ltb r.intent.expiry.get (time c)

-- What a call asks for besides its state: an expiry that has passed, or a retry that is left and
-- the txid of the attempt before.
abbrev permitted : ℕ → Call → TradeRecord → Bool
permitted max (expire k now) r = past_expiry (expire k now) r
permitted max (retry_after_failure k txid now) r = ltb r.retry_count max && r.prior_txid == txid
permitted _ _ _ = true

-- What a call that succeeds leaves in each field: only a failure has a reason, a txid is that of
-- the attempt in flight, and each retry counts one.
abbrev reason_after : Call → TradeRecord → Option FailureReason
reason_after (fail _ reason) r = some reason
reason_after (verify _ _) r = none
reason_after (retry_after_failure _ _ _) r = none
reason_after _ r = r.failure_reason

abbrev txid_in_flight : TradeLifecycleState → Option SettlementTxId → Option SettlementTxId
txid_in_flight submitted txid = txid
txid_in_flight _ txid = none

abbrev txid_after : Call → TradeRecord → Option SettlementTxId
txid_after (submit _ txid _) r = some txid
txid_after (fail _ _) r = txid_in_flight r.state r.prior_txid
txid_after (retry_after_failure _ _ _) r = none
txid_after _ r = r.prior_txid

abbrev retries_after : Call → TradeRecord → ℕ
retries_after (retry_after_failure _ _ _) r = r.retry_count + 1
retries_after _ r = r.retry_count

abbrev record_after : Call → TradeLifecycleState → TradeRecord → TradeRecord
record_after c to r = record {
  commitment = r.commitment;
  intent = r.intent;
  state = to;
  failure_reason = reason_after c r;
  prior_txid = txid_after c r;
  retry_count = retries_after c r;
}

abbrev attempt :
    ℕ → Call → TradeRecord → Option TradeLifecycleState → Result TradeRecord × TradeRecord
attempt max c r none = (err (refusal max c r), r)
attempt max c r (some to) =
    if starts_work c && past_expiry c r
    then (err (expired_trade r.intent.expiry.get (time c)), record r { state = expired })
    else if permitted max c r
    then (ok (record_after c to r), record_after c to r)
    else (err (refusal max c r), r)

-- A call at a record, by the tables.
unfoldable spec_record : ℕ → Call → TradeRecord → Result TradeRecord × TradeRecord
spec_record max c r = attempt max c r (target (event c) r.state)

abbrev fresh_record : TradeCommitment → Replay.TradeIntent → TradeRecord
fresh_record k intent = record {
  commitment = k;
  intent = intent;
  state = created;
  failure_reason = none;
  prior_txid = none;
  retry_count = 0;
}

abbrev keep : Result TradeRecord × TradeRecord → Result TradeRecord × Option TradeRecord
keep (result, r) = (result, some r)

abbrev spec_absent : Call → Result TradeRecord × Option TradeRecord
spec_absent (create k intent) = (ok (fresh_record k intent), some (fresh_record k intent))
spec_absent _ = (err unknown_trade, none)

unfoldable spec_step : ℕ → Call → Option TradeRecord → Result TradeRecord × Option TradeRecord
unfolding spec_record
spec_step max c none = spec_absent c
spec_step max c (some r) = keep (spec_record max c r)

-- The results of a sequence of calls on one trade, and the record that it leaves.
unfoldable pub spec_run :
    ℕ → List Call → Option TradeRecord → List (Result TradeRecord) × Option TradeRecord
unfolding spec_step
spec_run max [] o = ([], o)
spec_run max (c ∷ cs) o =
    let after = spec_step max c o in
    let rest = spec_run max cs after.1 in (after.0 ∷ rest.0, rest.1)

step_record-spec_record :
    (max : ℕ) (c : Call) (r : TradeRecord)
    → max < 2 ^ 32
    → step_record max c r ≡ spec_record max c r
unfolding step_record spec_record Replay.reject Replay.verify_record Replay.acquire_record
    Replay.submit_record Replay.confirm_record Replay.consume_record Replay.fail_record
    Replay.expire_record Replay.retry_record
step_record-spec_record max _ r m = ground arith

step-spec_step :
    (max : ℕ) (c : Call) (o : Option TradeRecord) → max < 2 ^ 32 → step max c o ≡ spec_step max c o
unfolding step spec_step Replay.new_record
step-spec_step max (create k intent) none m = refl
step-spec_step max _ none m = refl
step-spec_step max c (some r) m = ap keep (step_record-spec_record max c r m)

machine-spec_run :
    (max : ℕ) (cs : List Call) (o : Option TradeRecord)
    → max < 2 ^ 32
    → (machine_results max cs o, machine max cs o) ≡ spec_run max cs o
unfolding machine_results machine spec_run
machine-spec_run max [] o m = refl
machine-spec_run max (c ∷ cs) o m =
    ap (λ after. ((after.0 ∷ machine_results max cs after.1), machine max cs after.1))
      (step-spec_step max c o m)
    ∙ ap (λ rest. (((spec_step max c o).0 ∷ rest.0), rest.1))
        (machine-spec_run max cs (spec_step max c o).1 m)

-- For a u32 retry bound, the calls on a commitment in any sequence of calls on a store, which may
-- interleave calls on other commitments, give the results that the tables give, and leave the
-- record that the tables leave, where the retry count does not wrap around.
pub run-spec_run :
    (s : ReplayStore) (cs : List Call) (k : TradeCommitment)
    → s.max_retries < 2 ^ 32
    → (results_on k s cs, get_record (run s cs) k)
      ≡ spec_run s.max_retries (calls_on k cs) (get_record s k)
run-spec_run s cs k m =
    ap₂ (λ results r. (results, r)) (results_on-machine_results k s cs)
      (run-run_machine s cs k ∙ run_machine-machine s.max_retries k cs _)
    ∙ machine-spec_run s.max_retries (calls_on k cs) (get_record s k) m
