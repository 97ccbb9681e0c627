-- ===== src/Protocol/Replay/Interleaving.antt =====
-- Interleavings of the clients of one replay store (crates/protocol/src/replay.rs): what counts is
-- the order of the calls on each commitment.
use zwa_protocol.Prelude.{
  ℕ, ◌≡◌, refl, sym, ap, ◌∙◌, Option, List, [], ◌∷◌, if◌then◌else◌, ◌==◌, Bool-cases, inl, inr, ap₂,
}
use zwa_protocol.Protocol.Error.{Result}
use zwa_protocol.Protocol.Values.{TradeCommitment, newtype_eq, newtype_beq_iff}
use zwa_protocol.Protocol.Replay.{ReplayStore, TradeRecord, get_record}
use zwa_protocol.Protocol.Replay.Calls.{Call, key, exec, run}
use zwa_protocol.Protocol.Replay.Machine.{
  step, run_machine, run-run_machine, exec-step, get_record-exec,
}

-- The calls on one commitment, in their order.
abbrev pub calls_on : TradeCommitment → List Call → List Call
calls_on k [] = []
calls_on k (c ∷ cs) = if key c == k then c ∷ calls_on k cs else calls_on k cs

-- The results of the calls on one commitment, in their order.
unfoldable pub results_on : TradeCommitment → ReplayStore → List Call → List (Result TradeRecord)
results_on k s [] = []
results_on k s (c ∷ cs) =
    let rest = results_on k (exec s c).1 cs in if key c == k then (exec s c).0 ∷ rest else rest

-- The same of the machine of the commitment alone.
unfoldable pub machine_results : ℕ → List Call → Option TradeRecord → List (Result TradeRecord)
machine_results max [] o = []
machine_results max (c ∷ cs) o = (step max c o).0 ∷ machine_results max cs (step max c o).1

unfoldable pub machine : ℕ → List Call → Option TradeRecord → Option TradeRecord
machine max [] o = o
machine max (c ∷ cs) o = machine max cs (step max c o).1

pub run_machine-machine :
    (max : ℕ) (k : TradeCommitment) (cs : List Call) (o : Option TradeRecord)
    → run_machine max k cs o ≡ machine max (calls_on k cs) o
unfolding run_machine machine
run_machine-machine max k [] o = refl
run_machine-machine max k (c ∷ cs) o = elim (Bool-cases (key c == k)) [
  | inl same ↦ rw same (run_machine-machine max k cs (step max c o).1)
  | inr other ↦ rw other (run_machine-machine max k cs o)
]

pub results_on-machine_results :
    (k : TradeCommitment) (s : ReplayStore) (cs : List Call)
    → results_on k s cs ≡ machine_results s.max_retries (calls_on k cs) (get_record s k)
unfolding results_on machine_results
results_on-machine_results k s [] = refl
results_on-machine_results k s (c ∷ cs) =
    let rest : results_on k (exec s c).1 cs
        ≡ machine_results s.max_retries (calls_on k cs) (get_record (exec s c).1 k) =
      results_on-machine_results k (exec s c).1 cs
      ∙ ap (λ max. machine_results max (calls_on k cs) (get_record (exec s c).1 k))
          (exec-step s c).2 in
    elim (Bool-cases (key c == k)) [
      | inl same ↦ rw same (
          ap₂ (λ r tail. r ∷ tail)
            ((exec-step s c).0
              ∙ ap (λ j. (step s.max_retries c (get_record s j)).0)
                  ((newtype_beq_iff (key c) k).0 same))
            (rest
              ∙ ap (machine_results s.max_retries (calls_on k cs))
                  (get_record-exec s c k ∙ rw same refl)))
      | inr other ↦ rw other (
          rest
          ∙ ap (machine_results s.max_retries (calls_on k cs))
              (get_record-exec s c k ∙ rw other refl))
    ]

-- Two runs from one store that have, for each commitment, the same calls in the same order end with
-- the same record under each commitment, and give the calls on it the same results, however the
-- calls on different commitments are interleaved.
pub run-interleaving :
    (s : ReplayStore) (cs ds : List Call)
    → ((k : TradeCommitment) → calls_on k cs ≡ calls_on k ds)
    → (k : TradeCommitment)
    → (get_record (run s cs) k ≡ get_record (run s ds) k) × (results_on k s cs ≡ results_on k s ds)
run-interleaving s cs ds same k = (
  run-run_machine s cs k
      ∙ run_machine-machine s.max_retries k cs _
      ∙ ap (λ t. machine s.max_retries t (get_record s k)) (same k)
      ∙ sym (run_machine-machine s.max_retries k ds _)
      ∙ sym (run-run_machine s ds k),
  results_on-machine_results k s cs
      ∙ ap (λ t. machine_results s.max_retries t (get_record s k)) (same k)
      ∙ sym (results_on-machine_results k s ds),
)
