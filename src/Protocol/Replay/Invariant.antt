-- ===== src/Protocol/Replay/Invariant.antt =====
-- What holds of every record of a replay store (crates/protocol/src/replay.rs), whatever is called.
use zwa_protocol.Prelude.{
  ℕ, ◌≡◌, ◌≤◌, ◌<◌, ◌^◌, ◌⊎◌, true, Option, none, some, List, [], ◌∷◌, arith, inl, inr, ◌==◌,
  Bool-cases, opt_eq, is_some, subst, sym, ◌∙◌,
}
use zwa_protocol.Protocol.Lifecycle.{
  TradeLifecycleState, FailureReason, SettlementTxId, submitted, confirmed, consumed, expired,
  failed, txid_eq,
}
use zwa_protocol.Protocol.Values.{TradeCommitment, newtype_eq, newtype_beq_iff}
use zwa_protocol.Protocol.Replay.{TradeRecord, ReplayStore, get_record, with_max_retries}
use zwa_protocol.Protocol.Replay
use zwa_protocol.Protocol.Replay.Calls.{Call, create, key, run}
use zwa_protocol.Protocol.Replay.Machine.{step_record, step, run_machine, run-run_machine}

-- The reason and the txid that a record of each state carries.
abbrev pub Carries : TradeLifecycleState → Option FailureReason → Option SettlementTxId → Type 0
Carries submitted reason txid = (reason ≡ none) × (is_some txid ≡ true)
Carries confirmed reason txid = (reason ≡ none) × (is_some txid ≡ true)
Carries consumed reason txid = (reason ≡ none) × (is_some txid ≡ true)
Carries failed reason txid = is_some reason ≡ true
Carries expired reason txid = (txid ≡ none) ⊎ (is_some reason ≡ true)
Carries _ reason txid = (reason ≡ none) × (txid ≡ none)

pub record IsValid (max : ℕ) (k : TradeCommitment) (r : TradeRecord) : Type 0 where
  pub keyed : r.commitment ≡ k
  pub bounded : r.retry_count ≤ max
  pub carries : Carries r.state r.failure_reason r.prior_txid

new_record-IsValid :
    (max : ℕ) (k : TradeCommitment) (intent : Replay.TradeIntent)
    → IsValid max k (Replay.new_record k intent)
unfolding Replay.new_record
new_record-IsValid max k intent = ground arith

pub step_record-IsValid :
    (max : ℕ) (c : Call) (k : TradeCommitment) (r : TradeRecord)
    → max < 2 ^ 32
    → IsValid max k r
    → IsValid max k (step_record max c r).1
unfolding step_record Replay.reject Replay.verify_record Replay.acquire_record Replay.submit_record
    Replay.confirm_record Replay.consume_record Replay.fail_record Replay.expire_record
    Replay.retry_record
step_record-IsValid max (create _ _) k r m v = v
step_record-IsValid max _ k r m v = ground arith

-- Over a sequence of calls from any state of the machine.
OptionIsValid : ℕ → TradeCommitment → Option TradeRecord → Type 0
OptionIsValid max k none = Unit
OptionIsValid max k (some r) = IsValid max k r

step-IsValid :
    (max : ℕ) (c : Call) (k : TradeCommitment) (o : Option TradeRecord)
    → max < 2 ^ 32
    → key c ≡ k
    → OptionIsValid max k o
    → OptionIsValid max k (step max c o).1
unfolding step OptionIsValid
step-IsValid max (create j intent) k none m e v =
    subst (λ i. IsValid max i (Replay.new_record j intent)) e (new_record-IsValid max j intent)
step-IsValid max _ k none m e v = tt
step-IsValid max c k (some r) m e v = step_record-IsValid max c k r m v

run_machine-IsValid :
    (max : ℕ) (k : TradeCommitment) (cs : List Call) (o : Option TradeRecord)
    → max < 2 ^ 32
    → OptionIsValid max k o
    → OptionIsValid max k (run_machine max k cs o)
unfolding run_machine
run_machine-IsValid max k [] o m v = v
run_machine-IsValid max k (c ∷ cs) o m v = elim (Bool-cases (key c == k)) [
  | inl same ↦ rw same (
      run_machine-IsValid max k cs (step max c o).1 m
        (step-IsValid max c k o m ((newtype_beq_iff (key c) k).0 same) v))
  | inr other ↦ rw other (run_machine-IsValid max k cs o m v)
]

-- After any calls on a store made with a `u32` retry bound, the record under a commitment carries
-- that commitment and at most `max` retries. In CREATED, VERIFIED and SETTLEMENT_CONSTRUCTED it has
-- no failure reason and no txid; in SUBMITTED, CONFIRMED and CONSUMED a txid and no reason; in
-- FAILED a reason; in EXPIRED a txid only with a reason.
pub run-IsValid :
    (max : ℕ) (cs : List Call) (k : TradeCommitment) (r : TradeRecord)
    → max < 2 ^ 32
    → get_record (run (with_max_retries max) cs) k ≡ some r
    → IsValid max k r
unfolding with_max_retries OptionIsValid
run-IsValid max cs k r m h =
    subst (OptionIsValid max k) (sym (run-run_machine (with_max_retries max) cs k) ∙ h)
      (run_machine-IsValid max k cs none m tt)
