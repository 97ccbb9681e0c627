-- ===== src/Protocol/Replay/Origin.antt =====
-- Where the trades of a replay store (crates/protocol/src/replay.rs) come from: the first `create`
-- call on a commitment.
use zwa_protocol.Prelude.{
  ℕ, ◌≡◌, refl, ◌∙◌, ap, arith, Option, none, some, List, [], ◌∷◌, if◌then◌else◌, ◌==◌, Bool-cases,
  inl, inr,
}
use mathlib.Core.Option.{map}
use zwa_protocol.Protocol.Values.{TradeCommitment, newtype_eq, newtype_beq_iff}
use zwa_protocol.Protocol.Intent.{TradeIntent}
use zwa_protocol.Protocol.Replay
use zwa_protocol.Protocol.Replay.{TradeRecord, get_record, with_max_retries}
use zwa_protocol.Protocol.Replay.Calls.{Call, create, key, run}
use zwa_protocol.Protocol.Replay.Machine.{step_record, step, run_machine, run-run_machine}

-- What no call changes in a record.
abbrev pub identity : TradeRecord → TradeCommitment × TradeIntent
identity r = (r.commitment, r.intent)

abbrev creates : Call → Option TradeIntent
creates (create _ intent) = some intent
creates _ = none

abbrev or_else : Option TradeIntent → Option TradeIntent → Option TradeIntent
or_else none later = later
or_else (some first) later = some first

-- The intent of the first `create` call on a commitment.
unfoldable pub first_intent : TradeCommitment → List Call → Option TradeIntent
first_intent k [] = none
first_intent k (c ∷ cs) =
    if key c == k then or_else (creates c) (first_intent k cs) else first_intent k cs

abbrev named : TradeCommitment → TradeIntent → TradeCommitment × TradeIntent
named k intent = (k, intent)

identity-step_record :
    (max : ℕ) (c : Call) (r : TradeRecord) → identity (step_record max c r).1 ≡ identity r
unfolding step_record Replay.verify_record Replay.acquire_record Replay.submit_record
    Replay.confirm_record Replay.consume_record Replay.fail_record Replay.expire_record
    Replay.retry_record
identity-step_record max (create k intent) r = refl
identity-step_record max _ r = ground arith

run_machine_of_some :
    (max : ℕ) (k : TradeCommitment) (cs : List Call) (r : TradeRecord)
    → map identity (run_machine max k cs (some r)) ≡ some (identity r)
unfolding run_machine step
run_machine_of_some max k [] r = refl
run_machine_of_some max k (c ∷ cs) r = elim (Bool-cases (key c == k)) [
  | inl same ↦ rw same (
      run_machine_of_some max k cs (step_record max c r).1 ∙ ap some (identity-step_record max c r))
  | inr other ↦ rw other (run_machine_of_some max k cs r)
]

-- The first call that names the commitment, if no record is there.
run_machine-step :
    (max : ℕ) (k : TradeCommitment) (c : Call) (cs : List Call)
    → (key c ≡ k)
    → map identity (run_machine max k cs none) ≡ map (named k) (first_intent k cs)
    → map identity (run_machine max k cs (step max c none).1)
      ≡ map (named k) (or_else (creates c) (first_intent k cs))
unfolding step Replay.new_record
run_machine-step max k (create j intent) cs e h =
    run_machine_of_some max k cs (Replay.new_record j intent) ∙ ap (λ i. some (named i intent)) e
run_machine-step max k _ cs e h = h

run_machine-first_intent :
    (max : ℕ) (k : TradeCommitment) (cs : List Call)
    → map identity (run_machine max k cs none) ≡ map (named k) (first_intent k cs)
unfolding run_machine first_intent
run_machine-first_intent max k [] = refl
run_machine-first_intent max k (c ∷ cs) = elim (Bool-cases (key c == k)) [
  | inl same ↦ rw same (
      run_machine-step max k c cs ((newtype_beq_iff (key c) k).0 same)
        (run_machine-first_intent max k cs))
  | inr other ↦ rw other (run_machine-first_intent max k cs)
]

-- After any sequence of calls on a new store, a commitment has a record exactly if one of the calls
-- creates it; the record carries that commitment and the intent of the first such call.
pub run-first_intent :
    (max : ℕ) (cs : List Call) (k : TradeCommitment)
    → map identity (get_record (run (with_max_retries max) cs) k)
      ≡ map (named k) (first_intent k cs)
unfolding with_max_retries
run-first_intent max cs k =
    ap (map identity) (run-run_machine (with_max_retries max) cs k)
    ∙ run_machine-first_intent max k cs
