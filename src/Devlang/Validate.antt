-- ===== src/Devlang/Validate.antt =====
-- internal/devlang/validate.go: the checks that the versions of the language share. An error is
-- told by what its text says. A map is the list of its entries; the order in which a `range` loop
-- visits its keys is `visit`, which Go leaves open.
pub mod Versions
pub mod Tables
pub mod Accepted
pub mod Nodes
use dotdevops.Prelude.{
  ℕ, String, Bool, true, false, not, ◌&&◌, ◌||◌, ◌==◌, Option, none, some, List, [], ◌∷◌, ◌++◌, map,
  mem, is_empty, get?, has, if◌then◌else◌,
}
use dotdevops.Devlang.Ast.{Expr, Exprs, LetEnv, ident, str, bool, list, nil, cons}
use dotdevops.Devlang.Comp.{Comp, ok, err, no_fuel, ◌>>=◌}
use dotdevops.Devlang.Types.{TypeError, type_check}
use dotdevops.Devlang.Eval.{EvalError, eval}
use dotdevops.Devlang.Decl.{
  TargetDecl, NodeDecl, LetDecl, StepDecl, Decl, target_decl, node_decl, let_decl, step_decl,
}

-- The names are those that the message quotes; `required` and `not_string` name the primitive and
-- the attribute.
pub data Problem : Type 0 where
  unsupported : String → Problem
  duplicate_let duplicate_target duplicate_node duplicate_step : String → Problem
  bad_let : String → Problem
  type_problem : TypeError → Problem
  eval_problem : EvalError → Problem
  step_named_as_primitive step_with_targets step_with_depends_on : String → Problem
  step_without_type : String → Problem
  nested_step unknown_step_type invalid_step_policy : String → String → Problem
  node_without_type unknown_type unknown_primitive_type : String → Problem
  let_as_target unknown_target unknown_depends_on invalid_policy : String → Problem
  required not_string : String → String → Problem
  cmd_not_strings : Problem
  circular_step : List String → Problem
  unresolved_step : String → Problem
  range_not_strings body_not_nodes : Problem

-- What ends a validation: errors, or the dereference of a nil pointer.
pub data Failure : Type 0 where
  rejected : List Problem → Failure
  nil_pointer : Failure

-- if b { errs = append(errs, p) }
abbrev pub report : Bool → Problem → List Problem
report true p = p ∷ []
report false p = []

-- the errors that a loop over `xs` appends
abbrev pub each {ℓ} : {A : Type ℓ} → (A → List Problem) → List A → List Problem
each f [] = []
each f (x ∷ xs) = f x ++ each f xs

-- if len(errs) > 0 { return errs, … }
abbrev pub settle : List Problem → Comp Failure (Unit {0})
settle [] = ok tt
settle (p ∷ ps) = err (rejected (p ∷ ps))

module _ {ℓ} {V : Type ℓ} where
  abbrev pub keys : List (String × V) → List String
  keys [] = []
  keys ((k, v) ∷ m) = k ∷ keys m

  abbrev pub found : String → Option V → List (String × V) → List (String × V)
  found k none m = m
  found k (some v) m = (k, v) ∷ m

  -- the entries of a map at the keys that are visited
  abbrev pub pick : List (String × V) → List String → List (String × V)
  pick m [] = []
  pick m (k ∷ ks) = found k (get? k m) (pick m ks)

-- the loop that collects the lets of the versions with expressions
unfoldable pub add_let : LetEnv × List Problem → Decl → LetEnv × List Problem
add_let (lets, errs) (let_decl l) =
    if has l.name lets
    then (lets, errs ++ duplicate_let l.name ∷ [])
    else (lets ++ (l.name, l.value) ∷ [], errs)
add_let s d = s

abbrev pub fold {ℓ} : {S : Type ℓ} → (S → Decl → S) → S → List Decl → S
fold f s [] = s
fold f s (d ∷ ds) = fold f (f s d) ds

abbrev pub Steps : Type 0
Steps = List (String × StepDecl)

-- the symbol tables, and the errors that their loop appends
pub record Symbols : Type 0 where
  pub targets : List (String × TargetDecl)
  pub nodes : List (String × NodeDecl)
  pub errs : List Problem

unfoldable pub add_symbol : Symbols → Decl → Symbols
add_symbol s (target_decl t) =
    if has t.name s.targets
    then record s { errs = s.errs ++ duplicate_target t.name ∷ [] }
    else record s { targets = s.targets ++ (t.name, t) ∷ [] }
add_symbol s (node_decl n) =
    if has n.name s.nodes
    then record s { errs = s.errs ++ duplicate_node n.name ∷ [] }
    else record s { nodes = s.nodes ++ (n.name, n) ∷ [] }
add_symbol s d = s

unfoldable pub symbols : List Decl → Symbols
unfolding add_symbol
symbols ds = fold add_symbol (record { targets = []; nodes = []; errs = [] }) ds

-- resolveLetExpr
unfoldable pub resolve_let : LetEnv → Expr → Expr
resolve_let lets (ident x) = elim (get? x lets) [ none ↦ ident x | some v ↦ v ]
resolve_let lets e = e

unfoldable pub resolve_inputs : LetEnv → List (String × Expr) → List (String × Expr)
unfolding resolve_let
resolve_inputs lets [] = []
resolve_inputs lets ((k, e) ∷ inputs) = (k, resolve_let lets e) ∷ resolve_inputs lets inputs

-- the loop of allStringLits
abbrev pub strings : Exprs → Bool
strings nil = true
strings (cons (str s) es) = strings es
strings (cons e es) = false

-- allStringLits
unfoldable pub all_string_lits : Exprs → Bool
all_string_lits nil = false
all_string_lits es = strings es

-- srcExpr, ok := node.Inputs["src"] and the tests on it
abbrev pub required_string : String → String → Option Expr → List Problem
required_string primitive key none = required primitive key ∷ []
required_string primitive key (some (str s)) = []
required_string primitive key (some e) = not_string primitive key ∷ []

abbrev pub string_if_there : String → String → Option Expr → List Problem
string_if_there primitive key none = []
string_if_there primitive key (some (str s)) = []
string_if_there primitive key (some e) = not_string primitive key ∷ []

unfoldable pub command : Option Expr → List Problem
unfolding all_string_lits
command none = required "process.exec" "cmd" ∷ []
command (some (list es)) = report (not (all_string_lits es)) cmd_not_strings
command (some e) = cmd_not_strings ∷ []

-- validatePrimitiveInputsV0_1
unfoldable pub input_problems : String → List (String × Expr) → List Problem
unfolding command
input_problems type inputs =
    if type == "file.sync"
    then required_string type "src" (get? "src" inputs)
      ++ required_string type "dest" (get? "dest" inputs)
    else if type == "process.exec"
    then command (get? "cmd" inputs) ++ string_if_there type "cwd" (get? "cwd" inputs)
    else []

abbrev pub known_policy : String → Bool
known_policy s = (s == "halt" || s == "continue") || s == "rollback"

-- the check of a failure policy
abbrev pub policy_problems : (String → Problem) → Option String → List Problem
policy_problems problem none = []
policy_problems problem (some s) = report (not (known_policy s)) (problem s)

abbrev pub target_problems : LetEnv → List (String × TargetDecl) → String → List Problem
target_problems lets targets t =
    if has t lets then let_as_target t ∷ [] else report (not (has t targets)) (unknown_target t)

-- the loops over the targets and the dependencies of a node
unfoldable pub reference_problems : LetEnv → Symbols → NodeDecl → List Problem
reference_problems lets s n =
    each (target_problems lets s.targets) n.targets
    ++ each (λ d. report (not (has d s.nodes)) (unknown_depends_on d)) n.depends_on

module _ (fuel : ℕ) (lets : LetEnv) where
  -- the loop that checks the types of the lets
  unfoldable pub type_problems : List (String × Expr) → Comp Failure (List Problem)
  type_problems [] = ok []
  type_problems ((x, e) ∷ rest) = elim (type_check fuel lets e) [
    | ok t ↦ type_problems rest
    | err p ↦ type_problems rest >>= λ ps. ok (type_problem p ∷ ps)
    | no_fuel ↦ no_fuel
  ]

  -- the loop that evaluates them
  unfoldable pub evaluate_lets : List (String × Expr) → Comp Failure (LetEnv × List Problem)
  evaluate_lets [] = ok ([], [])
  evaluate_lets ((x, e) ∷ rest) = elim (eval fuel lets e) [
    | ok v ↦ evaluate_lets rest >>= λ (values, ps). ok ((x, v) ∷ values, ps)
    | err p ↦ evaluate_lets rest >>= λ (values, ps). ok (values, eval_problem p ∷ ps)
    | no_fuel ↦ no_fuel
  ]

-- steps 2 to 4 of the versions with expressions: the lets, evaluated
unfoldable pub collect_lets : ℕ → (List String → List String) → List Decl → Comp Failure LetEnv
unfolding add_let type_problems evaluate_lets
collect_lets fuel visit ds =
    let (lets, errs) = fold add_let ([], []) ds in
    settle errs >>= λ _. type_problems fuel lets (pick lets (visit (keys lets))) >>= λ type_errs.
    settle type_errs >>= λ _.
    evaluate_lets fuel lets (pick lets (visit (keys lets))) >>= λ (values, eval_errs).
    settle eval_errs >>= λ _. ok values
