-- ===== src/Devlang/Validate/Versions.antt =====
-- ValidateV0_1 to ValidateV0_4 of internal/devlang/validate.go.
use dotdevops.Prelude.{
  ℕ, String, Bool, true, false, not, ◌&&◌, Option, none, some, List, [], ◌∷◌, ◌++◌, mem, is_empty,
  has, if◌then◌else◌,
}
use dotdevops.Devlang.Ast.{Expr, LetEnv, str, bool, list}
use dotdevops.Devlang.Comp.{Comp, ok, err, ◌>>=◌}
use dotdevops.Devlang.Decl.{NodeDecl, StepDecl, Decl, let_decl, for_decl, step_decl, module_decl}
use dotdevops.Devlang.Validate.{
  Problem, unsupported, duplicate_let, bad_let, duplicate_step, step_named_as_primitive,
  step_with_targets, step_with_depends_on, step_without_type, nested_step, unknown_step_type,
  invalid_step_policy, node_without_type, unknown_type, unknown_primitive_type, invalid_policy,
  Failure, nil_pointer, report, each, settle, keys, pick, fold, Steps, Symbols, symbols,
  resolve_inputs, all_string_lits, input_problems, policy_problems, reference_problems,
  collect_lets,
}

-- the primitives that the versions 0.1 to 0.3 know
abbrev pub primitives : List String
primitives =
    "file.sync" ∷ "process.exec" ∷ "template.render" ∷ "health.check" ∷ "service.ensure"
    ∷ "package.install" ∷ []

-- primitiveTypes of version 0.4
abbrev pub primitive_types : List String
primitive_types =
    "file.sync" ∷ "process.exec" ∷ "template.render" ∷ "health.check" ∷ "service.ensure" ∷ []

-- the constructs that a version rejects
abbrev pub refused_v0_4 : Decl → List Problem
refused_v0_4 (for_decl x e b) = unsupported "for expressions" ∷ []
refused_v0_4 (module_decl x b) = unsupported "modules" ∷ []
refused_v0_4 d = []

abbrev pub refused_v0_2 : Decl → List Problem
refused_v0_2 (step_decl s) = unsupported "steps" ∷ []
refused_v0_2 d = refused_v0_4 d

abbrev pub refused_v0_1 : Decl → List Problem
refused_v0_1 (let_decl l) = unsupported "let bindings" ∷ []
refused_v0_1 d = refused_v0_2 d

-- Version 0.2 takes literals as the values of lets.
abbrev pub is_literal_v0_2 : Expr → Bool
is_literal_v0_2 (str s) = true
is_literal_v0_2 (bool b) = true
is_literal_v0_2 (list es) = all_string_lits es
is_literal_v0_2 e = false

unfoldable pub add_literal_let : LetEnv × List Problem → Decl → LetEnv × List Problem
unfolding all_string_lits
add_literal_let (lets, errs) (let_decl l) =
    if has l.name lets
    then (lets, errs ++ duplicate_let l.name ∷ [])
    else if is_literal_v0_2 l.value
    then (lets ++ (l.name, l.value) ∷ [], errs)
    else (lets, errs ++ bad_let l.name ∷ [])
add_literal_let s d = s

-- the checks of a node in the versions 0.1 to 0.3, which read the type of a node without a test
unfoldable pub check_primitive_node : LetEnv → Symbols → NodeDecl → Comp Failure (List Problem)
unfolding reference_problems input_problems resolve_inputs
check_primitive_node lets s n = elim n.type [
  | none ↦ err nil_pointer
  | some t ↦ ok (
      reference_problems lets s n
      ++ report (not (mem t primitives)) (unknown_primitive_type t)
      ++ policy_problems invalid_policy n.failure_policy
      ++ input_problems t (resolve_inputs lets n.inputs))
]

unfoldable pub check_primitive_nodes :
    LetEnv → Symbols → List (String × NodeDecl) → Comp Failure (List Problem)
unfolding check_primitive_node
check_primitive_nodes lets s [] = ok []
check_primitive_nodes lets s ((x, n) ∷ ns) =
    check_primitive_node lets s n >>= λ ps. check_primitive_nodes lets s ns >>= λ qs. ok (ps ++ qs)

-- the symbol tables and the checks of the nodes, which end the validation
unfoldable pub check_file : (List String → List String) → LetEnv → List Decl → Comp Failure LetEnv
unfolding check_primitive_nodes
check_file visit lets ds =
    let s = symbols ds in
    check_primitive_nodes lets s (pick s.nodes (visit (keys s.nodes))) >>= λ ps.
    settle (s.errs ++ ps) >>= λ _. ok lets

unfoldable pub validate_v0_1 : (List String → List String) → List Decl → Comp Failure LetEnv
unfolding check_file
validate_v0_1 visit ds = settle (each refused_v0_1 ds) >>= λ _. check_file visit [] ds

unfoldable pub validate_v0_2 : (List String → List String) → List Decl → Comp Failure LetEnv
unfolding add_literal_let check_file
validate_v0_2 visit ds = settle (each refused_v0_2 ds) >>= λ _.
    let (lets, errs) = fold add_literal_let ([], []) ds in
    settle errs >>= λ _. check_file visit lets ds

unfoldable pub validate_v0_3 : ℕ → (List String → List String) → List Decl → Comp Failure LetEnv
unfolding collect_lets check_file
validate_v0_3 fuel visit ds = settle (each refused_v0_2 ds) >>= λ _.
    collect_lets fuel visit ds >>= λ lets. check_file visit lets ds

-- what is wrong with the type of a step's body
unfoldable pub step_type_problem : Steps → String → Option String → Option Problem
step_type_problem steps x none = some (step_without_type x)
step_type_problem steps x (some t) =
    if mem t primitive_types
    then none
    else some (if has t steps then nested_step x t else unknown_step_type x t)

-- one round of the loop over the steps
unfoldable pub check_step : Steps × List Problem → StepDecl → Steps × List Problem
unfolding step_type_problem
check_step (steps, errs) s =
    if has s.name steps
    then (steps, errs ++ duplicate_step s.name ∷ [])
    else if mem s.name primitive_types
    then (steps, errs ++ step_named_as_primitive s.name ∷ [])
    else let found =
        errs
        ++ report (not (is_empty s.body.targets)) (step_with_targets s.name)
        ++ report (not (is_empty s.body.depends_on)) (step_with_depends_on s.name) in
      elim (step_type_problem steps s.name s.body.type) [
        | some p ↦ (steps, found ++ p ∷ [])
        | none ↦ (
          steps ++ (s.name, s) ∷ [],
          found ++ policy_problems (invalid_step_policy s.name) s.body.failure_policy,
        )
      ]

unfoldable pub add_step : Steps × List Problem → Decl → Steps × List Problem
unfolding check_step
add_step acc (step_decl s) = check_step acc s
add_step acc d = acc

-- the checks of a node in version 0.4, by its type
unfoldable pub check_typed : LetEnv → Steps → Symbols → NodeDecl → Option String → List Problem
unfolding reference_problems input_problems resolve_inputs
check_typed lets steps s n none = node_without_type n.name ∷ []
check_typed lets steps s n (some t) =
    if not (has t steps) && not (mem t primitive_types)
    then unknown_type t ∷ []
    else reference_problems lets s n
      ++ policy_problems invalid_policy n.failure_policy
      ++ (if mem t primitive_types then input_problems t (resolve_inputs lets n.inputs) else [])

unfoldable pub check_node : LetEnv → Steps → Symbols → NodeDecl → List Problem
unfolding check_typed
check_node lets steps s n = check_typed lets steps s n n.type

unfoldable pub validate_v0_4 :
    ℕ → (List String → List String) → List Decl → Comp Failure (LetEnv × Steps)
unfolding collect_lets add_step check_node
validate_v0_4 fuel visit ds = settle (each refused_v0_4 ds) >>= λ _.
    collect_lets fuel visit ds >>= λ lets.
    let (steps, step_errs) = fold add_step ([], []) ds in
    settle step_errs >>= λ _.
    let s = symbols ds in
    let nodes = pick s.nodes (visit (keys s.nodes)) in
    settle (s.errs ++ each (λ (x, n). check_node lets steps s n) nodes) >>= λ _. ok (lets, steps)
