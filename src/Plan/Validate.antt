-- ===== src/Plan/Validate.antt =====
-- Validate of internal/plan/validate.go. An error is told by what its text says.
pub mod Valid
use dotdevops.Prelude.{
  ℕ, suc, String, Bool, true, false, not, ◌&&◌, ◌||◌, ◌==◌, Option, none, some, List, [], ◌∷◌, ◌++◌,
  map, mem, is_empty, if◌then◌else◌,
}
use dotdevops.Json.{Value, Values, Fields, slice, str, item}
use dotdevops.Plan.Schema.{Target, WhenCondition, Node, Plan, ids}
use dotdevops.Controller.Compare.{value_at}

-- The number is the index, the first name the node's id, the second the name that is refused.
pub data Problem : Type 0 where
  missing_version no_targets no_nodes : Problem
  target_without_id target_without_address : ℕ → Problem
  node_without_id node_without_type : ℕ → Problem
  node_without_targets : ℕ → String → Problem
  unknown_target unknown_depends_on unknown_when invalid_policy : ℕ → String → String → Problem
  cmd_required cwd_not_string : ℕ → String → Problem

-- if b { errs = append(errs, e) }
abbrev pub report : Bool → Problem → List Problem
report true e = e ∷ []
report false e = []

-- the first loop over the targets
unfoldable pub target_problems : ℕ → List Target → List Problem
target_problems i [] = []
target_problems i (t ∷ ts) =
    report (t.id == "") (target_without_id i)
    ++ report (t.address == "") (target_without_address i)
    ++ target_problems (suc i) ts

-- a loop over names that must be among the known ones
unfoldable pub unknown : List String → (String → Problem) → List String → List Problem
unknown known problem [] = []
unknown known problem (x ∷ xs) = report (not (mem x known)) (problem x) ++ unknown known problem xs

abbrev pub when_nodes : Option WhenCondition → List String
when_nodes none = []
when_nodes (some w) = w.node ∷ []

abbrev pub known_policy : String → Bool
known_policy s = ((s == "" || s == "halt") || s == "continue") || s == "rollback"

-- cmd, ok := n.Inputs["cmd"].([]any); ok && len(cmd) > 0
abbrev pub is_command : Option Value → Bool
is_command (some (slice (item v vs))) = true
is_command _ = false

-- the input is missing, or it is a string
abbrev pub is_string_if_there : Option Value → Bool
is_string_if_there none = true
is_string_if_there (some (str s)) = true
is_string_if_there (some v) = false

-- the switch on the type
unfoldable pub input_problems : ℕ → Node → List Problem
input_problems i n =
    if n.type == "process.exec"
    then report (not (is_command (value_at "cmd" n.inputs))) (cmd_required i n.id)
      ++ report (not (is_string_if_there (value_at "cwd" n.inputs))) (cwd_not_string i n.id)
    else []

module _ (target_ids node_ids : List String) where
  -- the body of the loop over the nodes
  unfoldable pub node_problems : ℕ → Node → List Problem
  unfolding unknown input_problems
  node_problems i n =
      report (n.id == "") (node_without_id i)
      ++ report (n.type == "") (node_without_type i)
      ++ report (is_empty n.targets) (node_without_targets i n.id)
      ++ unknown target_ids (unknown_target i n.id) n.targets
      ++ unknown node_ids (unknown_depends_on i n.id) n.depends_on
      ++ unknown node_ids (unknown_when i n.id) (when_nodes n.when)
      ++ report (not (known_policy n.failure_policy)) (invalid_policy i n.id n.failure_policy)
      ++ input_problems i n

  unfoldable pub all_node_problems : ℕ → List Node → List Problem
  unfolding node_problems
  all_node_problems i [] = []
  all_node_problems i (n ∷ ns) = node_problems i n ++ all_node_problems (suc i) ns

abbrev pub target_ids_of : Plan → List String
target_ids_of p = map (λ t. t.id) p.targets

-- Validate
unfoldable pub validate : Plan → List Problem
unfolding target_problems all_node_problems
validate p =
    report (p.version == "") missing_version
    ++ report (is_empty p.targets) no_targets
    ++ report (is_empty p.nodes) no_nodes
    ++ target_problems 0 p.targets
    ++ all_node_problems (target_ids_of p) (ids p.nodes) 0 p.nodes
