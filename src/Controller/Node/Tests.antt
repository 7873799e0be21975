-- ===== src/Controller/Node/Tests.antt =====
-- Nodes on a target whose agent answers, with and without a dry run.
use dotdevops.Prelude.{
  ℕ, ◌≡◌, refl, ◌⊎◌, true, false, Option, none, some, List, [], ◌∷◌, ◌++◌, All, Result, ok, ◌↔◌,
  length,
}
use dotdevops.Prelude.Int.{pos}
use dotdevops.Json.{Fields, str, int, nil, end, field}
use dotdevops.Proto.{Outcome}
use dotdevops.Plan.Schema.{Node, Target}
use dotdevops.State.Store.{Execution, StoreError, no_changes}
use dotdevops.Secret.Laws.{NoPlaceholder}
use dotdevops.Controller.Tests.{node}
use dotdevops.Controller.Compare.{Floats, deep_equal, fields_equal, compare_state}
use dotdevops.Controller.Compare.Satisfied.{Satisfied, compare_state_lem}
use dotdevops.Controller.Node.{Options, World, Ran, quiet, status}
use dotdevops.Controller.Node.Dispatch.{run_node}
use dotdevops.Controller.Node.Effects.{Quiet, run_node-Quiet}
use dotdevops.Controller.Node.Secrets.{run_node-NoPlaceholder}
use dotdevops.Controller.Target.{run_attempts, succeeded}
use dotdevops.Controller.Target.Attempts.{run_attempts_lem}

abbrev floats : Floats
floats = record { same = λ x y. true; same_as_int = λ x y. false }

abbrev done : Outcome
done = record {
  status = "success";
  class = "";
  exit_code = pos 0;
  stdout = "";
  stderr = "";
  rollback_safe = false;
  message = "";
  applied = [];
  failed = [];
}

abbrev world : World
world = record {
  environment = λ k. some "hunter2";
  floats = floats;
  with_port = λ a. a;
  dials = λ n a. true;
  probe = λ a f. none;
  detect = λ a f. none;
  source_tree = λ p. none;
  apply = λ a r. some done;
  hash_changes = λ cs. "";
}

abbrev host : Target
host = record { id = "host"; address = "10.0.0.1"; labels = [] }

abbrev dry : Options
dry = record {
  dry_run = true;
  resume = false;
  reconcile = false;
  observe = false;
  confirm = false;
  json_output = false;
  secret_provider = none;
}

abbrev writer : Node
writer = record (node "w" []) { type = "_fs.write"; inputs = field "path" (str "/etc/motd") end }

run_node-Quiet_example : Quiet (run_node world (node "a" []) host "p" "n" dry)
run_node-Quiet_example = run_node-Quiet world (node "a" []) host "p" "n" dry refl refl

run_node-NoPlaceholder_example :
    All (λ e. NoPlaceholder e.inputs) (run_node world writer host "p" "n" dry).recorded
run_node-NoPlaceholder_example = run_node-NoPlaceholder world writer host "p" "n" dry

-- A service that runs is found as desired, and one of its fields that is not observed is not.
abbrev desired : Fields
desired = field "state" (str "running") end

compare_state_lem_example :
    ((compare_state floats desired desired).0 ≡ true) ↔ Satisfied floats desired desired
compare_state_lem_example = compare_state_lem floats desired desired

-- A nil value equals a missing key one way round only.
nil_against_missing :
    (fields_equal floats (field "a" nil end) (field "b" (int 1) end) ≡ true)
    × (fields_equal floats (field "b" (int 1) end) (field "a" nil end) ≡ false)
unfolding fields_equal deep_equal
nil_against_missing = (refl, refl)

abbrev flaky : ℕ → Ran
flaky a = quiet [] true (status "applied")

run_attempts_lem_example :
    (failures : List Ran) × (last : Ran) × (run_attempts flaky 1 2 ≡ failures ++ last ∷ [])
    × All (λ r. succeeded r ≡ false) failures
    × ((succeeded last ≡ true) ⊎ (length failures ≡ 2))
run_attempts_lem_example = run_attempts_lem flaky 1 2

abbrev earlier : Execution
earlier = record {
  id = 1;
  node_id = "a";
  target = "host";
  primitive_type = "process.exec";
  plan_hash = "p";
  node_hash = "n";
  content_hash = "";
  timestamp = 0;
  status = "applied";
  changes = no_changes;
  inputs = end;
}

abbrev history : Result StoreError (Option Execution)
history = ok (some earlier)
