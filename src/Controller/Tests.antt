-- ===== src/Controller/Tests.antt =====
-- Two nodes, the second of which depends on the first, and runs of their graph.
use dotdevops.Prelude.{
  ◌≤◌, ◌<◌, ◌*◌, String, ◌≡◌, refl, subst, ◌↔◌, ◌⊎◌, inl, true, false, none, some, List, [], ◌∷◌,
  mem, length, update, ok, arith,
}
use dotdevops.Prelude.Int.{pos}
use dotdevops.Json.{end}
use dotdevops.Plan.Schema.{Node, ids}
use dotdevops.Controller.Graph.{
  Graph, build_graph, add_nodes, add_edges, add_deps, release, roots, kahn, verdict, detect_cycles,
  checked,
}
use dotdevops.Controller.Graph.Correct.{Visits, Outcome, Represents, build_graph_outcome}
use dotdevops.Controller.Run.{
  RunState, TargetResult, initial, Reach, here, next, dispatch, start, stop, receive, applied,
  skipped, Step,
}
use dotdevops.Controller.Run as Run
use dotdevops.Controller.Run.Progress.{run_ends, run_progress, channels_fit}
use dotdevops.Controller.Run.Verdict.{run_after_deps, run_verdict}

abbrev pub node : String → List String → Node
node id deps = record {
  id = id;
  type = "process.exec";
  targets = "host" ∷ [];
  depends_on = deps;
  when = none;
  failure_policy = "";
  inputs = end;
  idempotent = false;
  side_effects = "";
  retry = none;
  rollback_cmd = [];
  requires_secrets = [];
  probe = none;
  desired = none;
}

abbrev first : Node
first = node "a" []

abbrev second : Node
second = node "b" ("a" ∷ [])

abbrev pair : List Node
pair = first ∷ second ∷ []

abbrev names : List String
names = "a" ∷ "b" ∷ []

abbrev pair_graph : Graph
pair_graph = record {
  nodes = pair;
  edges = update (λ _. []) "a" ("b" ∷ []);
  in_degree = update (update (update (λ _. pos 0) "a" (pos 0)) "b" (pos 0)) "b" (pos 1);
}

visited : Visits names pair
visited v = refl

pair_built : build_graph names pair ≡ some (ok pair_graph)
unfolding build_graph add_nodes add_edges add_deps checked detect_cycles kahn release roots verdict
pair_built = refl

pair_outcome : Outcome names pair visited (build_graph names pair)
pair_outcome = build_graph_outcome names pair visited

pair_accepted : Outcome names pair visited (some (ok pair_graph))
pair_accepted = subst (Outcome names pair visited) pair_built pair_outcome

pair_is : Represents pair pair_graph
pair_is = pair_accepted.0

build_graph_outcome_example : Outcome names pair visited (build_graph names pair)
build_graph_outcome_example = build_graph_outcome names pair visited

abbrev hosts : List String
hosts = "host" ∷ []

abbrev good : TargetResult
good = record { changed = true; error = none }

abbrev bad : TargetResult
bad = record { changed = false; error = some "unreachable" }

run_defs : Unit {0}
unfolding initial roots Run.begin Run.start_of Run.begin_as Run.any_blocking Run.unmet Run.skip
    Run.known_targets Run.finish Run.errors Run.any_changed Run.halts Run.collect release
    Run.find_node
run_defs = tt

-- The state in which the first node has run its target and the second one runs its own.
second_runs : (s : RunState) × Reach pair_graph hosts (initial names pair_graph) 6 s
unfolding run_defs
second_runs = (
  _,
  next
      (next
        (next
          (next (next (next here (dispatch "a" [] refl)) (start first refl refl))
            (stop first (good ∷ []) refl refl))
          (receive "a" [] refl))
        (dispatch "b" [] refl))
      (start second refl refl),
)

-- The run of both nodes to its end.
both_run : (s : RunState) × Reach pair_graph hosts (initial names pair_graph) 8 s
unfolding run_defs
both_run = (
  _,
  next
      (next
        (next
          (next
            (next
              (next (next (next here (dispatch "a" [] refl)) (start first refl refl))
                (stop first (good ∷ []) refl refl))
              (receive "a" [] refl))
            (dispatch "b" [] refl))
          (start second refl refl))
        (stop second (good ∷ []) refl refl))
      (receive "b" [] refl),
)

-- The first node fails, and the second one is skipped.
second_skipped : (s : RunState) × Reach pair_graph hosts (initial names pair_graph) 7 s
unfolding run_defs
second_skipped = (
  _,
  next
      (next
        (next
          (next
            (next (next (next here (dispatch "a" [] refl)) (start first refl refl))
              (stop first (bad ∷ []) refl refl))
            (receive "a" [] refl))
          (dispatch "b" [] refl))
        (start second refl refl))
      (receive "b" [] refl),
)

run_after_deps_example : second_runs.0.node_states "a" ≡ applied
unfolding run_defs second_runs
run_after_deps_example =
    run_after_deps pair pair_graph pair_is hosts names visited second_runs.1 "b" "a" refl
      (inl (omega arith))

run_verdict_example : (Run.verdict both_run.0 ≡ none) ↔ (
    (v : String)
    → mem v (ids pair) ≡ true
    → (both_run.0.node_states v ≡ applied) ⊎ (both_run.0.node_states v ≡ skipped))
unfolding run_defs both_run
run_verdict_example = run_verdict pair pair_graph pair_is hosts names visited both_run.1 refl

run_ends_example : 8 ≤ 5 * length pair
run_ends_example = run_ends pair pair_graph pair_is hosts names visited both_run.1

channels_fit_example :
    (length second_runs.0.ready ≤ length pair) × (length second_runs.0.done ≤ length pair)
channels_fit_example = channels_fit pair pair_graph pair_is hosts names visited second_runs.1

run_progress_example :
    ((length second_runs.0.collected ≡ length pair) × (0 < length second_runs.0.collected))
    ⊎ ((s : RunState) × Step pair_graph hosts second_runs.0 s)
run_progress_example =
    run_progress pair pair_graph pair_is hosts names visited pair_accepted.1 pair_accepted.2
      (omega arith) second_runs.1
