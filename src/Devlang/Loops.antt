-- ===== src/Devlang/Loops.antt =====
-- ValidateV0_5 of internal/devlang/validate.go and the compiler of version 0.5 behind the parser.
pub mod Generated
pub mod Sound
pub mod Tests
use dotdevops.Prelude.{
  ℕ, String, Bool, true, false, not, ◌&&◌, ◌||◌, Option, none, some, List, [], ◌∷◌, ◌++◌, mem,
  is_empty, has, map, if◌then◌else◌,
}
use dotdevops.Json.{Value}
use dotdevops.Plan.Schema.{Plan}
use dotdevops.Plan.Validate as Ir
use dotdevops.Plan.Validate.{validate}
use dotdevops.Devlang.Ast.{Expr, Exprs, LetEnv, str, list, nil, cons}
use dotdevops.Devlang.Comp.{Comp, ok, err, no_fuel, ◌>>=◌}
use dotdevops.Devlang.Decl.{
  NodeDecl, StepDecl, Decl, Decls, node_decl, step_decl, module_decl, decl,
}
use dotdevops.Devlang.Decl as Decl
use dotdevops.Devlang.Validate.{
  Problem, unsupported, duplicate_step, step_named_as_primitive, step_with_targets,
  step_with_depends_on, step_without_type, node_without_type, unknown_type, invalid_policy,
  circular_step, unresolved_step, range_not_strings, body_not_nodes, Failure, report, each, settle,
  keys, pick, fold, Steps, Symbols, symbols, resolve_let, resolve_inputs, input_problems,
  policy_problems, reference_problems, collect_lets,
}
use dotdevops.Devlang.Validate.Versions.{primitives}
use dotdevops.Devlang.Compile.{lift}
use dotdevops.Devlang.Steps.{Search, step_graph, detect_cycles}
use dotdevops.Devlang.Unroll.{UnrollError, ForDecl, for_loops, lower_v0_5}

abbrev refused : Decl → List Problem
refused (module_decl x b) = unsupported "modules" ∷ []
refused d = []

abbrev typed : Steps → StepDecl → List Problem → Option String → Steps × List Problem
typed steps s errs none = (steps, errs ++ step_without_type s.name ∷ [])
typed steps s errs (some t) = (steps ++ (s.name, s) ∷ [], errs)

-- one round of the loop over the steps
unfoldable pub collect_step : Steps × List Problem → StepDecl → Steps × List Problem
collect_step (steps, errs) s =
    if has s.name steps
    then (steps, errs ++ duplicate_step s.name ∷ [])
    else if mem s.name primitives
    then (steps, errs ++ step_named_as_primitive s.name ∷ [])
    else let found =
        errs
        ++ report (not (is_empty s.body.targets)) (step_with_targets s.name)
        ++ report (not (is_empty s.body.depends_on)) (step_with_depends_on s.name) in
      typed steps s found s.body.type

unfoldable pub collect_steps : Steps × List Problem → Decl → Steps × List Problem
unfolding collect_step
collect_steps acc (step_decl s) = collect_step acc s
collect_steps acc d = acc

-- if cycles := detectStepCycles(…); len(cycles) > 0
abbrev no_cycles : Option Search → Comp Failure (Unit {0})
no_cycles none = no_fuel
no_cycles (some s) = settle (map circular_step s.cycles)

abbrev type_problems : Steps → StepDecl → Option String → List Problem
type_problems steps s none = step_without_type s.name ∷ []
type_problems steps s (some t) =
    report (not (mem t primitives || has t steps)) (unresolved_step s.name)

-- validateStepTypeResolution, with its error
abbrev pub resolution_problems : Steps → StepDecl → List Problem
resolution_problems steps s = type_problems steps s s.body.type

abbrev pub elem_problems : Exprs → List Problem
elem_problems nil = []
elem_problems (cons (str s) es) = elem_problems es
elem_problems (cons e es) = range_not_strings ∷ elem_problems es

abbrev pub body_problems : Decls → List Problem
body_problems Decl.end = []
body_problems (decl (node_decl n) ds) = body_problems ds
body_problems (decl d ds) = body_not_nodes ∷ body_problems ds

-- The body is not looked at behind a range that is no list.
abbrev pub range_problems : Decls → Expr → List Problem
range_problems body (list es) = elem_problems es ++ body_problems body
range_problems body e = range_not_strings ∷ []

-- one round of the loop over the for-loops; a name that is no let stays a name
unfoldable pub loop_problems : LetEnv → ForDecl → List Problem
unfolding resolve_let
loop_problems lets l = range_problems l.body (resolve_let lets l.range)

abbrev outer_problems : LetEnv → Steps → Symbols → NodeDecl → Option String → List Problem
unfolding reference_problems input_problems resolve_inputs
outer_problems lets steps s n none = node_without_type n.name ∷ []
outer_problems lets steps s n (some t) =
    if not (has t steps) && not (mem t primitives)
    then unknown_type t ∷ []
    else reference_problems lets s n
      ++ policy_problems invalid_policy n.failure_policy
      ++ (if mem t primitives then input_problems t (resolve_inputs lets n.inputs) else [])

-- one round of the loop over the nodes
unfoldable pub check_outer_node : LetEnv → Steps → Symbols → NodeDecl → List Problem
unfolding reference_problems input_problems resolve_inputs
check_outer_node lets steps s n = outer_problems lets steps s n n.type

module _ (fuel : ℕ) (sort visit : List String → List String) where
  -- the checks of the steps, once they are collected
  unfoldable pub check_steps : Steps → Comp Failure (Unit {0})
  unfolding detect_cycles step_graph
  check_steps steps =
      no_cycles (detect_cycles (step_graph steps primitives) fuel (sort (keys steps))) >>= λ _.
      settle (each (λ (x, s). resolution_problems steps s) (pick steps (visit (keys steps))))

  -- ValidateV0_5
  unfoldable pub validate_v0_5 : List Decl → Comp Failure (LetEnv × Steps × List ForDecl)
  unfolding collect_lets collect_steps check_steps for_loops loop_problems check_outer_node
  validate_v0_5 ds = settle (each refused ds) >>= λ _. collect_lets fuel visit ds >>= λ lets.
      let (steps, step_errs) = fold collect_steps ([], []) ds in
      settle step_errs >>= λ _. check_steps steps >>= λ _.
      settle (each (loop_problems lets) (for_loops ds)) >>= λ _.
      let s = symbols ds in
      let nodes = pick s.nodes (visit (keys s.nodes)) in
      settle (s.errs ++ each (λ (x, n). check_outer_node lets steps s n) nodes) >>= λ _.
      ok (lets, steps, for_loops ds)

pub data LoopError : Type 0 where
  not_valid : Failure → LoopError
  not_unrolled : UnrollError → LoopError
  invalid_plan : List Ir.Problem → LoopError

unfoldable pub valid_plan : Plan → Comp LoopError Plan
valid_plan p = elim (validate p) [ [] ↦ ok p | e ∷ es ↦ err (invalid_plan (e ∷ es)) ]

-- CompileFileV0_5, behind the parser and without the JSON
unfoldable pub compile_v0_5 :
    (Value → String)
    → ℕ
    → (List String → List String)
    → (List String → List String)
    → List Decl
    → Comp LoopError Plan
unfolding validate_v0_5 lower_v0_5 valid_plan
compile_v0_5 format fuel sort visit ds =
    lift not_valid (validate_v0_5 fuel sort visit ds) >>= λ (lets, steps, loops).
    lift not_unrolled (lower_v0_5 format fuel sort visit lets steps loops ds) >>= valid_plan
