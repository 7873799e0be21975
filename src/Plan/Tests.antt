-- ===== src/Plan/Tests.antt =====
-- A plan that Validate refuses, one that it accepts, and the theorems at small plans.
use dotdevops.Prelude.{
  String, ◌≡◌, ◌≢◌, ◌↔◌, refl, Bool, true, ◌==◌, none, some, List, [], ◌∷◌, err,
}
use dotdevops.Json.{Fields, end, field, slice, item, str}
use dotdevops.Json.{Values}
use dotdevops.Plan.Schema.{Node, Plan}
use dotdevops.Plan.Validate.{
  no_targets, unknown_target, unknown_depends_on, invalid_policy, cmd_required, validate,
}
use dotdevops.Plan.Validate.Valid.{IsValid, validate-IsValid_iff}
use dotdevops.Plan.Diff.{has_changes, diff}
use dotdevops.Controller.Graph.{unknown_node, build_graph}
use dotdevops.Controller.Graph.Validated.{build_graph-validate}

abbrev node : String → List String → Fields → Node
node id deps inputs = record {
  id = id;
  type = "process.exec";
  targets = "web" ∷ [];
  depends_on = deps;
  when = none;
  failure_policy = "halt";
  inputs = inputs;
  idempotent = true;
  side_effects = "";
  retry = none;
  rollback_cmd = [];
  requires_secrets = [];
  probe = none;
  desired = none;
}

abbrev command : Fields
command = field "cmd" (slice (item (str "ls") Values.none)) end

abbrev good : Plan
good = record {
  version = "1.0";
  targets = record { id = "web"; address = "10.0.0.1"; labels = [] } ∷ [];
  nodes = node "a" [] command ∷ node "b" ("a" ∷ []) command ∷ [];
}

abbrev bad : Plan
bad = record {
  version = "1.0";
  targets = [];
  nodes = record (node "a" ("z" ∷ []) end) { failure_policy = "stop" } ∷ [];
}

validate-good : validate good ≡ []
unfolding validate
validate-good = refl

validate-bad :
    validate bad
    ≡ no_targets
      ∷ unknown_target 0 "a" "web"
      ∷ unknown_depends_on 0 "a" "z"
      ∷ invalid_policy 0 "a" "stop"
      ∷ cmd_required 0 "a"
      ∷ []
unfolding validate
validate-bad = refl

validate-IsValid_iff_example : (validate bad ≡ []) ↔ IsValid bad
validate-IsValid_iff_example = validate-IsValid_iff bad

build_graph-validate_example :
    build_graph ("a" ∷ "b" ∷ []) good.nodes ≢ some (err (unknown_node "b" "a"))
build_graph-validate_example =
    build_graph-validate ("a" ∷ "b" ∷ []) good (λ v. refl) validate-good "b" "a"

abbrev same_id : Node → Node → Bool
same_id n m = n.id == m.id

-- The two plans differ in their nodes.
good-bad : has_changes (diff same_id good bad) ≡ true
unfolding diff
good-bad = refl
