-- ===== src/Protocol/Replay/Expiry.antt =====
-- The calls that a record turns down (crates/protocol/src/replay.rs): an expired trade is moved to
-- EXPIRED by the calls that start new work, and every other rejection writes nothing.
use zwa_protocol.Prelude.{ℕ, ◌≡◌, ◌<◌, arith, ltb, if◌then◌else◌, opt_eq, opt_beq_iff}
use zwa_protocol.Protocol.Error.{
  ProtocolError, err, expired_trade, already_consumed, invalid_state_transition,
  retry_budget_exhausted, unreconciled_prior_submission,
}
use zwa_protocol.Protocol.Lifecycle.{
  TradeLifecycleState, LifecycleEvent, created, verified, settlement_constructed, consumed, expired,
  failed, txid_eq,
}
use zwa_protocol.Protocol.Replay.{TradeRecord}
use zwa_protocol.Protocol.Replay
use zwa_protocol.Protocol.Replay.Calls.{
  Call, create, verify, acquire_construction, submit, confirm, consume, fail, expire,
  retry_after_failure, event,
}
use zwa_protocol.Protocol.Replay.Machine.{step_record}
use zwa_protocol.Protocol.Replay.Diagram.{Accepts}

-- The time that a call is given; `confirm`, `consume`, `fail` and `create` take none.
abbrev pub time : Call → ℕ
time (verify _ now) = now.get
time (acquire_construction _ now) = now.get
time (submit _ _ now) = now.get
time (expire _ now) = now.get
time (retry_after_failure _ _ now) = now.get
time _ = 0

-- A call that would start new work on a trade whose expiry has passed.
abbrev pub Lapses : Call → TradeRecord → Type 0
Lapses (verify k now) r = (r.state ≡ created) × (r.intent.expiry.get < now.get)
Lapses (acquire_construction k now) r = (r.state ≡ verified) × (r.intent.expiry.get < now.get)
Lapses (submit k txid now) r = (r.state ≡ settlement_constructed) × (r.intent.expiry.get < now.get)
Lapses (retry_after_failure k txid now) r = (r.state ≡ failed) × (r.intent.expiry.get < now.get)
Lapses _ r = ⊥

-- Such a call is rejected with the expiry and the time, and only moves the record to EXPIRED.
pub step_record-Lapses :
    (max : ℕ) (c : Call) (r : TradeRecord)
    → Lapses c r
    → step_record max c r
      ≡ (err (expired_trade r.intent.expiry.get (time c)), record r { state = expired })
unfolding step_record Replay.verify_record Replay.acquire_record Replay.submit_record
    Replay.retry_record
step_record-Lapses max (verify k now) r h = ground arith
step_record-Lapses max (acquire_construction k now) r h = ground arith
step_record-Lapses max (submit k txid now) r h = ground arith
step_record-Lapses max (retry_after_failure k txid now) r h = ground arith
step_record-Lapses max (create _ _) r h = absurd h
step_record-Lapses max (confirm _) r h = absurd h
step_record-Lapses max (consume _) r h = absurd h
step_record-Lapses max (fail _ _) r h = absurd h
step_record-Lapses max (expire _ _) r h = absurd h

-- The error of any other rejection.
abbrev pub transition_refused : TradeLifecycleState → LifecycleEvent → ProtocolError
transition_refused consumed e = already_consumed
transition_refused s e = invalid_state_transition s e

abbrev retry_refused : ℕ → TradeRecord → TradeLifecycleState → ProtocolError
retry_refused max r failed =
    if ltb r.retry_count max
    then unreconciled_prior_submission
    else retry_budget_exhausted r.retry_count max
retry_refused max r s = transition_refused s LifecycleEvent.retry

abbrev pub refusal : ℕ → Call → TradeRecord → ProtocolError
refusal max (retry_after_failure k txid now) r = retry_refused max r r.state
refusal max c r = transition_refused r.state (event c)

-- A call that is neither accepted nor late is rejected with the error of its state, and leaves the
-- record as it was.
pub step_record-refused :
    (max : ℕ) (c : Call) (r : TradeRecord)
    → ¬ Accepts max c r
    → ¬ Lapses c r
    → step_record max c r ≡ (err (refusal max c r), r)
unfolding step_record Replay.reject Replay.verify_record Replay.acquire_record Replay.submit_record
    Replay.confirm_record Replay.consume_record Replay.fail_record Replay.expire_record
    Replay.retry_record
step_record-refused max (retry_after_failure k txid now) r a l =
    ground (arith, opt_beq_iff r.prior_txid txid)
step_record-refused max _ r a l = ground arith
