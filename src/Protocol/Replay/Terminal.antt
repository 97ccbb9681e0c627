-- ===== src/Protocol/Replay/Terminal.antt =====
-- CONSUMED and EXPIRED are terminal in crates/protocol/src/replay.rs.
use zwa_protocol.Prelude.{
  ℕ, ◌≡◌, ◌⊎◌, ◌∙◌, refl, some, List, [], ◌∷◌, arith, inl, inr, ◌==◌, Bool-cases, ap,
}
use zwa_protocol.Protocol.Error.{err}
use zwa_protocol.Protocol.Lifecycle.{consumed, expired}
use zwa_protocol.Protocol.Values.{TradeCommitment, newtype_eq}
use zwa_protocol.Protocol.Replay.{TradeRecord, ReplayStore, get_record}
use zwa_protocol.Protocol.Replay
use zwa_protocol.Protocol.Replay.Calls.{Call, create, key, event, exec, run}
use zwa_protocol.Protocol.Replay.Machine.{
  step_record, step, run_machine, run-run_machine, exec-step,
}
use zwa_protocol.Protocol.Replay.Expiry.{transition_refused}

abbrev pub IsTerminal : TradeRecord → Type 0
IsTerminal r = (r.state ≡ consumed) ⊎ (r.state ≡ expired)

step_record_of_IsTerminal :
    (max : ℕ) (c : Call) (r : TradeRecord)
    → IsTerminal r
    → step_record max c r ≡ (err (transition_refused r.state (event c)), r)
unfolding step_record Replay.reject Replay.verify_record Replay.acquire_record Replay.submit_record
    Replay.confirm_record Replay.consume_record Replay.fail_record Replay.expire_record
    Replay.retry_record
step_record_of_IsTerminal max (create _ _) r h = ground arith
step_record_of_IsTerminal max _ r h = ground arith

step_of_IsTerminal :
    (max : ℕ) (c : Call) (r : TradeRecord)
    → IsTerminal r
    → step max c (some r) ≡ (err (transition_refused r.state (event c)), some r)
unfolding step
step_of_IsTerminal max c r h = rw (step_record_of_IsTerminal max c r h)

run_machine_of_IsTerminal :
    (max : ℕ) (k : TradeCommitment) (cs : List Call) (r : TradeRecord)
    → IsTerminal r
    → run_machine max k cs (some r) ≡ some r
unfolding run_machine
run_machine_of_IsTerminal max k [] r h = refl
run_machine_of_IsTerminal max k (c ∷ cs) r h = elim (Bool-cases (key c == k)) [
  | inl same ↦ rw (same, step_of_IsTerminal max c r h) (run_machine_of_IsTerminal max k cs r h)
  | inr other ↦ rw other (run_machine_of_IsTerminal max k cs r h)
]

-- The record of a consumed or an expired trade survives any calls unchanged, and every call on it
-- is then refused: as already consumed, or as an illegal transition from EXPIRED.
pub run_of_IsTerminal :
    (s : ReplayStore) (cs : List Call) (c : Call) (r : TradeRecord)
    → get_record s (key c) ≡ some r
    → IsTerminal r
    → (get_record (run s cs) (key c) ≡ some r)
      × ((exec (run s cs) c).0 ≡ err (transition_refused r.state (event c)))
run_of_IsTerminal s cs c r h t = (kept, refused)
  where
    kept : get_record (run s cs) (key c) ≡ some r
    kept =
        run-run_machine s cs (key c) ∙ rw h (run_machine_of_IsTerminal s.max_retries (key c) cs r t)

    refused : (exec (run s cs) c).0 ≡ err (transition_refused r.state (event c))
    refused =
        (exec-step (run s cs) c).0
        ∙ rw kept (ap (λ o. o.0) (step_of_IsTerminal (run s cs).max_retries c r t))
