-- ===== src/Devlang/Steps.antt =====
-- Nested steps: buildStepDependencyGraph, detectStepCycles and validateStepTypeResolution of
-- internal/devlang/validate.go, and expandStepRecursive with expandNodeWithSteps of lower.go. The
-- depth-first search and the expansion run on fuel for the depth of their calls; `names` are the
-- names of the steps as sort.Strings leaves them.
pub mod Order
pub mod Depth
pub mod Expand
pub mod Exact
pub mod Tests
use dotdevops.Prelude.{
  ℕ, zero, suc, String, Bool, true, false, not, ◌==◌, Option, none, some, List, [], ◌∷◌, ◌++◌, mem,
  get?, has, ◌||◌, Map, update, if◌then◌else◌,
}
use dotdevops.Devlang.Ast.{Expr}
use dotdevops.Devlang.Comp.{Comp, ok, err, no_fuel, ◌>>=◌}
use dotdevops.Devlang.Decl.{NodeDecl, StepDecl}
use dotdevops.Devlang.Validate.{Steps, Problem, step_without_type}
use dotdevops.Devlang.Lower.{merge, or_else}

abbrev pub if_no_primitive : List String → Option String → List String
if_no_primitive primitives none = []
if_no_primitive primitives (some t) = if mem t primitives then [] else t ∷ []

abbrev pub parents : List String → Option StepDecl → List String
parents primitives none = []
parents primitives (some s) = if_no_primitive primitives s.body.type

-- buildStepDependencyGraph
unfoldable pub step_graph : Steps → List String → Map (List String)
step_graph steps primitives x = parents primitives (get? x steps)

-- the variables of detectStepCycles
pub record Search : Type 0 where
  pub visited : Map Bool
  pub rec_stack : Map Bool
  pub cycles : List (List String)

-- path[cycleStart:], empty if the name is not on the path
unfoldable pub from : String → List String → List String
from v [] = []
from v (x ∷ path) = if x == v then x ∷ path else from v path

abbrev pub closed : String → List String → List (List String)
closed v [] = []
closed v (x ∷ path) = ((x ∷ path) ++ v ∷ []) ∷ []

infixl 5 ◌then_do◌
abbrev pub ◌then_do◌ : Option Search → (Search → Option Search) → Option Search
none then_do f = none
some s then_do f = f s

-- one neighbor: `go` is dfs on the longer path
unfoldable pub look_at :
    (String → Search → Option Search) → List String → String → Search → Option Search
unfolding from
look_at go path v s =
    let deeper = go v s in
    if not (s.visited v)
    then deeper
    else if s.rec_stack v
    then some (record s { cycles = s.cycles ++ closed v (from v path) })
    else some s

-- the loop over the neighbors
unfoldable pub look_at_all :
    (String → Search → Option Search) → List String → List String → Search → Option Search
unfolding look_at
look_at_all go path [] s = some s
look_at_all go path (v ∷ vs) s = look_at go path v s then_do λ s'. look_at_all go path vs s'

unfoldable pub enter : String → Search → Search
enter u s = record s { visited = update s.visited u true; rec_stack = update s.rec_stack u true }

unfoldable pub leave : String → Search → Search
leave u s = record s { rec_stack = update s.rec_stack u false }

module _ (graph : Map (List String)) where
  -- dfs
  unfoldable pub dfs : ℕ → String → List String → Search → Option Search
  unfolding look_at_all enter leave
  dfs zero u path s = none
  dfs (suc fuel) u path s =
      look_at_all (λ v t. dfs fuel v (path ++ u ∷ []) t) (path ++ u ∷ []) (graph u) (enter u s)
      then_do λ t. some (leave u t)

  -- the loop over the names
  unfoldable pub search_all : ℕ → List String → Search → Option Search
  unfolding dfs
  search_all fuel [] s = some s
  search_all fuel (u ∷ us) s =
      (if s.visited u then some s else dfs fuel u [] s) then_do λ t. search_all fuel us t

  -- detectStepCycles, and findPrimitiveCycles of the later versions
  unfoldable pub detect_cycles : ℕ → List String → Option Search
  unfolding search_all
  detect_cycles fuel names =
      search_all fuel names (record { visited = λ x. false; rec_stack = λ x. false; cycles = [] })

-- validateStepTypeResolution: whether a step's type is a primitive or a step
unfoldable pub resolves : Steps → List String → StepDecl → Bool
resolves steps primitives s = elim s.body.type [
  | none ↦ false
  | some t ↦ mem t primitives || has t steps
]

pub data ExpandError : Type 0 where
  node_without_type : ExpandError
  missing_type : String → ExpandError
  unknown_step : String → String → ExpandError

-- deepCloneNode
unfoldable pub clone : NodeDecl → NodeDecl
clone n = record n { idempotent = none; side_effects = none; retry = none; rollback_cmd = none }

-- the inputs and the failure policy of a step over those of its base
unfoldable pub over_base : StepDecl → NodeDecl → NodeDecl
over_base s base = record base {
  inputs = merge base.inputs s.body.inputs;
  failure_policy = or_else s.body.failure_policy base.failure_policy;
}

abbrev pub Cache : Type 0
Cache = List (String × NodeDecl)

-- the end of an expansion, which fills the cache
unfoldable pub finish : StepDecl → NodeDecl × Cache → NodeDecl × Cache
unfolding over_base clone
finish s (base, cache) = (over_base s base, (s.name, clone (over_base s base)) ∷ cache)

-- the expanded parent of a step; `go` is the expansion
unfoldable pub parent_of :
    (StepDecl → Cache → Comp ExpandError (NodeDecl × Cache))
    → Cache
    → ExpandError
    → Option StepDecl
    → Comp ExpandError (NodeDecl × Cache)
unfolding clone
parent_of go cache unknown none = err unknown
parent_of go cache unknown (some p) = go p cache >>= λ (n, c). ok (clone n, c)

module _ (steps : Steps) (primitives : List String) where
  -- the base of a step, by its type: the body itself or the expanded parent
  unfoldable pub base_of :
      (StepDecl → Cache → Comp ExpandError (NodeDecl × Cache))
      → StepDecl
      → Cache
      → Option String
      → Comp ExpandError (NodeDecl × Cache)
  unfolding clone parent_of
  base_of go s cache none = err (missing_type s.name)
  base_of go s cache (some t) =
      if mem t primitives
      then ok (clone s.body, cache)
      else parent_of go cache (unknown_step s.name t) (get? t steps)

  -- expandStepRecursive
  unfoldable pub expand_step : ℕ → StepDecl → Cache → Comp ExpandError (NodeDecl × Cache)
  unfolding base_of finish
  expand_step zero s cache = no_fuel
  expand_step (suc fuel) s cache = elim (get? s.name cache) [
    | some n ↦ ok (clone n, cache)
    | none ↦ base_of (expand_step fuel) s cache s.body.type >>= λ r. ok (finish s r)
  ]

  -- the node of a step: its own name, targets and dependencies, and its inputs over the step's
  unfoldable pub expand_node_of : ℕ → NodeDecl → Option StepDecl → Comp ExpandError NodeDecl
  unfolding expand_step
  expand_node_of fuel n none = ok n
  expand_node_of fuel n (some s) = expand_step fuel s [] >>= λ (e, cache). ok (record (clone e) {
    name = n.name;
    targets = n.targets;
    depends_on = n.depends_on;
    inputs = merge e.inputs n.inputs;
    failure_policy = or_else n.failure_policy e.failure_policy;
  })

  abbrev pub expand_typed : ℕ → NodeDecl → Option String → Comp ExpandError NodeDecl
  unfolding expand_node_of
  expand_typed fuel n none = err node_without_type
  expand_typed fuel n (some t) = expand_node_of fuel n (get? t steps)

  -- expandNodeWithSteps
  unfoldable pub expand_node : ℕ → NodeDecl → Comp ExpandError NodeDecl
  unfolding expand_node_of
  expand_node fuel n = expand_typed fuel n n.type
