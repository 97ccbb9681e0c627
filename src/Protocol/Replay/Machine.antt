-- ===== src/Protocol/Replay/Machine.antt =====
-- The abstract store: one machine for each commitment, over `Option TradeRecord`. The store of
-- crates/protocol/src/replay.rs implements it: a call moves the machine of its own commitment.
use zwa_protocol.Prelude.{
  ℕ, ◌≡◌, refl, ◌∙◌, Option, none, some, List, [], ◌∷◌, if◌then◌else◌, ◌==◌, arith, Bool-cases, ap₂,
  inl, inr,
}
use zwa_protocol.Prelude.BTreeMap.{get-insert}
use zwa_protocol.Protocol.Error.{Result, ok, err, unknown_trade}
use zwa_protocol.Protocol.Lifecycle.{LifecycleEvent}
use zwa_protocol.Protocol.Values.{TradeCommitment, newtype_eq, newtype_beq_iff}
use zwa_protocol.Protocol.Intent.{TradeIntent}
use zwa_protocol.Protocol.Replay
use zwa_protocol.Protocol.Replay.{ReplayStore, TradeRecord, RecordM, get_record, Outcome}
use zwa_protocol.Protocol.Replay.Calls.{
  Call, create, verify, acquire_construction, submit, confirm, consume, fail, expire,
  retry_after_failure, key, exec, run,
}

-- A call at a record that is there: its result, and the record that it leaves.
unfoldable pub step_record : ℕ → Call → RecordM TradeRecord
step_record max (create k intent) r = (err (Replay.reject r.state LifecycleEvent.create), r)
step_record max (verify k now) r = Replay.verify_record now r
step_record max (acquire_construction k now) r = Replay.acquire_record now r
step_record max (submit k txid now) r = Replay.submit_record txid now r
step_record max (confirm k) r = Replay.confirm_record r
step_record max (consume k) r = Replay.consume_record r
step_record max (fail k reason) r = Replay.fail_record reason r
step_record max (expire k now) r = Replay.expire_record now r
step_record max (retry_after_failure k txid now) r = Replay.retry_record max txid now r

abbrev keep_record : Result TradeRecord × TradeRecord → Result TradeRecord × Option TradeRecord
keep_record (result, r) = (result, some r)

abbrev step_absent : Call → Result TradeRecord × Option TradeRecord
step_absent (create k intent) = let r = Replay.new_record k intent in (ok r, some r)
step_absent _ = (err unknown_trade, none)

unfoldable pub step : ℕ → Call → Option TradeRecord → Result TradeRecord × Option TradeRecord
step max c none = step_absent c
step max c (some r) = keep_record (step_record max c r)

-- The machine of commitment `k` over a sequence of calls: those that name another do not move it.
unfoldable pub run_machine :
    ℕ → TradeCommitment → List Call → Option TradeRecord → Option TradeRecord
run_machine max k [] o = o
run_machine max k (c ∷ cs) o = run_machine max k cs (if key c == k then (step max c o).1 else o)

abbrev on_option :
    RecordM TradeRecord → Option TradeRecord → Result TradeRecord × Option TradeRecord
on_option body none = (err unknown_trade, none)
on_option body (some r) = keep_record (body r)

-- What a call does, in the words of the machine `after` of its own commitment.
abbrev Implements :
    ReplayStore → TradeCommitment → Outcome → Result TradeRecord × Option TradeRecord → Type 0
Implements s k outcome after =
    (outcome.0 ≡ after.0)
    × ((j : TradeCommitment)
        → get_record outcome.1 j ≡ (if k == j then after.1 else get_record s j))
    × (outcome.1.max_retries ≡ s.max_retries)

record_mut-Implements :
    (s : ReplayStore) (k : TradeCommitment) (body : RecordM TradeRecord) (o : Option TradeRecord)
    → get_record s k ≡ o
    → Implements s k (Replay.record_mut s k body) (on_option body o)
unfolding Replay.record_mut
record_mut-Implements s k body none h =
    (ground arith, λ j. ground (arith, newtype_beq_iff k j), ground arith)
record_mut-Implements s k body (some r) h =
    (ground arith, λ j. ground (arith, get-insert s.records k j (body r).1), ground arith)

create-Implements :
    (s : ReplayStore) (k : TradeCommitment) (intent : TradeIntent) (o : Option TradeRecord)
    → get_record s k ≡ o
    → Implements s k (Replay.create s k intent) (step s.max_retries (create k intent) o)
unfolding Replay.create step step_record
create-Implements s k intent none h = (
  ground arith,
  λ j. ground (arith, get-insert s.records k j (Replay.new_record k intent)),
  ground arith,
)
create-Implements s k intent (some r) h =
    (ground arith, λ j. ground (arith, newtype_beq_iff k j), ground arith)

body-Implements :
    (s : ReplayStore) (c : Call) (body : RecordM TradeRecord) {outcome : Outcome}
    → outcome ≡ Replay.record_mut s (key c) body
    → ((o : Option TradeRecord) → on_option body o ≡ step s.max_retries c o)
    → Implements s (key c) outcome (step s.max_retries c (get_record s (key c)))
body-Implements s c body e h =
    rw (e, ← h (get_record s (key c))) (record_mut-Implements s (key c) body _ refl)

-- A call's result is the result of its commitment's machine; it leaves that machine's record under
-- its commitment, every other record as it was, and the retry bound as it was.
pub exec-step :
    (s : ReplayStore) (c : Call)
    → let after = step s.max_retries c (get_record s (key c)) in
      ((exec s c).0 ≡ after.0)
      × ((j : TradeCommitment)
          → get_record (exec s c).1 j ≡ (if key c == j then after.1 else get_record s j))
      × ((exec s c).1.max_retries ≡ s.max_retries)
unfolding exec step step_record Replay.verify Replay.acquire_construction Replay.submit
    Replay.confirm Replay.consume Replay.fail Replay.expire Replay.retry_after_failure
exec-step s (create k intent) = create-Implements s k intent _ refl
exec-step s (verify k now) =
    body-Implements s (verify k now) (Replay.verify_record now) refl
      (elim [ none ↦ refl | some r ↦ refl ])
exec-step s (acquire_construction k now) =
    body-Implements s (acquire_construction k now) (Replay.acquire_record now) refl
      (elim [ none ↦ refl | some r ↦ refl ])
exec-step s (submit k txid now) =
    body-Implements s (submit k txid now) (Replay.submit_record txid now) refl
      (elim [ none ↦ refl | some r ↦ refl ])
exec-step s (confirm k) =
    body-Implements s (confirm k) (Replay.confirm_record) refl
      (elim [ none ↦ refl | some r ↦ refl ])
exec-step s (consume k) =
    body-Implements s (consume k) (Replay.consume_record) refl
      (elim [ none ↦ refl | some r ↦ refl ])
exec-step s (fail k reason) =
    body-Implements s (fail k reason) (Replay.fail_record reason) refl
      (elim [ none ↦ refl | some r ↦ refl ])
exec-step s (expire k now) =
    body-Implements s (expire k now) (Replay.expire_record now) refl
      (elim [ none ↦ refl | some r ↦ refl ])
exec-step s (retry_after_failure k txid now) =
    body-Implements s (retry_after_failure k txid now) (Replay.retry_record s.max_retries txid now)
      refl (elim [ none ↦ refl | some r ↦ refl ])

-- One call, seen from any commitment.
pub get_record-exec :
    (s : ReplayStore) (c : Call) (k : TradeCommitment)
    → get_record (exec s c).1 k
      ≡ (if key c == k then (step s.max_retries c (get_record s k)).1 else get_record s k)
get_record-exec s c k = elim (Bool-cases (key c == k)) [
  | inl same ↦ (exec-step s c).1 k ∙ rw (same, (newtype_beq_iff (key c) k).0 same) refl
  | inr other ↦ (exec-step s c).1 k ∙ rw (other) refl
]

-- A run of the store is a run of the machine of each commitment, independent of all the others.
pub run-run_machine :
    (s : ReplayStore) (cs : List Call) (k : TradeCommitment)
    → get_record (run s cs) k ≡ run_machine s.max_retries k cs (get_record s k)
unfolding run run_machine
run-run_machine s [] k = refl
run-run_machine s (c ∷ cs) k =
    run-run_machine (exec s c).1 cs k
    ∙ ap₂ (λ max o. run_machine max k cs o) (exec-step s c).2 (get_record-exec s c k)
