-- ===== src/Controller/Target.antt =====
-- What Run of internal/controller/orchestrator.go does for one target of a node: the decision on
-- the history, and the attempts. Delays and the JSON report are not modelled.
pub mod Attempts
use Prim.Native.Nat.{◌-◌}
use dotdevops.Prelude.{
  ℕ, zero, suc, String, Bool, true, false, not, ◌&&◌, ◌||◌, ◌==◌, Option, none, some, List, [], ◌∷◌,
  ltb, Result, ok, err, if◌then◌else◌,
}
use dotdevops.Prelude.Int.{ℤ, pos, negsuc}
use dotdevops.Proto.{total_changes}
use dotdevops.State.Store.{Execution, StoreError}
use dotdevops.Plan.Schema.{Node, RetryConfig}
use dotdevops.Controller.Node.{Options, Ran, NodeError}

pub data Decision : Type 0 where
  resumed up_to_date : Execution → Decision
  execute : Decision

-- isResumable
abbrev pub is_resumable : Options → String → Execution → Bool
is_resumable opts plan_hash latest =
    (opts.resume && latest.plan_hash == plan_hash) && latest.status == "applied"

-- isReconciled
abbrev pub is_reconciled : Options → Node → String → Execution → Bool
is_reconciled opts node node_hash latest =
    (opts.reconcile || not opts.resume)
    && (node.type == "process.exec"
        && ((latest.status == "applied" && latest.node_hash == node_hash) && not node.idempotent))

-- the two decisions on the answer of LatestExecution
unfoldable pub decide :
    Options → Node → String → String → Result StoreError (Option Execution) → Decision
decide opts node plan_hash node_hash (err e) = execute
decide opts node plan_hash node_hash (ok none) = execute
decide opts node plan_hash node_hash (ok (some latest)) =
    if is_resumable opts plan_hash latest
    then resumed latest
    else if is_reconciled opts node node_hash latest
    then up_to_date latest
    else execute

-- anyChanged for a target that is skipped on its history
abbrev pub changed_before : Node → Execution → Bool
changed_before node latest = ltb 0 (total_changes latest.changes) || node.type == "process.exec"

-- attempts
abbrev pub attempts_of : Option RetryConfig → ℕ
attempts_of none = 1
attempts_of (some retry) = elim (retry.attempts) [ pos n ↦ if ltb 1 n then n else 1 | negsuc n ↦ 1 ]

abbrev pub succeeded : Ran → Bool
succeeded r = elim (r.error) [ none ↦ true | some e ↦ false ]

-- the loop, from attempt `a` with `more` attempts behind it; `run a` is the call of runNode
unfoldable pub run_attempts : (ℕ → Ran) → ℕ → ℕ → List Ran
run_attempts run a zero = run a ∷ []
run_attempts run a (suc more) =
    let rest = run_attempts run (suc a) more in
    if succeeded (run a) then run a ∷ [] else run a ∷ rest

-- What the goroutine of a target adds to `anyChanged` and `nodeErrs`.
pub record Answer : Type 0 where
  pub calls : List Ran
  pub changed : Bool
  pub error : Option NodeError

abbrev pub last_answer : List Ran → List Ran → Answer
last_answer calls [] = record { calls = calls; changed = false; error = none }
last_answer calls (r ∷ []) = record { calls = calls; changed = r.changed; error = r.error }
last_answer calls (r ∷ q ∷ rs) = last_answer calls (q ∷ rs)

-- the goroutine of a target; `cancelled` tells whether the context is done when it starts
unfoldable pub run_target :
    Options
    → Node
    → String
    → String
    → Bool
    → Result StoreError (Option Execution)
    → (ℕ → Ran)
    → Answer
unfolding decide run_attempts
run_target opts node plan_hash node_hash true history run = record {
  calls = [];
  changed = false;
  error = none;
}
run_target opts node plan_hash node_hash false history run =
    let calls = run_attempts run 1 (attempts_of node.retry - 1) in
    let answer = last_answer calls calls in
    elim (decide opts node plan_hash node_hash history) [
      | resumed latest ↦ record { calls = []; changed = changed_before node latest; error = none }
      | up_to_date latest ↦ record {
        calls = [];
        changed = changed_before node latest;
        error = none;
      }
      | execute ↦ answer
    ]
