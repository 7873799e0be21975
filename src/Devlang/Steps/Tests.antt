-- ===== src/Devlang/Steps/Tests.antt =====
-- Steps on steps, and a ring of steps.
use dotdevops.Prelude.{
  ℕ, String, ◌≡◌, refl, true, false, ◌==◌, Option, none, some, List, [], ◌∷◌, get?, All, arith, mem,
  ◌≤◌, ◌↔◌, if◌then◌else◌,
}
use dotdevops.Devlang.Ast.{Expr, ident}
use dotdevops.Devlang.Comp.{Comp, ok, err}
use dotdevops.Devlang.Decl.{NodeDecl, StepDecl}
use dotdevops.Devlang.Validate.{Steps}
use dotdevops.Devlang.Lower.{merge}
use dotdevops.Devlang.Validate.Tables.{All-get?}
use dotdevops.Devlang.Steps.{
  step_graph, Search, detect_cycles, resolves, ExpandError, Cache, node_without_type, expand_step,
  expand_node,
}
use dotdevops.Devlang.Steps.Order.{IsOrder, IsClean}
use dotdevops.Devlang.Steps.Exact.{detect_cycles_exact}
use dotdevops.Devlang.Steps.Expand.{IsPrimitive, expand_step-IsPrimitive}

abbrev body : Option String → List (String × Expr) → NodeDecl
body type inputs = record {
  name = "";
  type = type;
  targets = [];
  depends_on = [];
  failure_policy = none;
  inputs = inputs;
  idempotent = none;
  side_effects = none;
  retry = none;
  rollback_cmd = none;
}

abbrev run : StepDecl
run = record {
  name = "run";
  params = [];
  body = body (some "process.exec") (("cmd", ident "a") ∷ ("cwd", ident "b") ∷ []);
}

abbrev restart : StepDecl
restart = record {
  name = "restart";
  params = [];
  body = body (some "run") (("cmd", ident "c") ∷ []);
}

abbrev nested : Steps
nested = ("restart", restart) ∷ ("run", run) ∷ []

abbrev primitives : List String
primitives = "process.exec" ∷ []

abbrev names : List String
names = "restart" ∷ "run" ∷ []

-- a ring of three names, which a fourth one points into
abbrev ring : String → List String
ring x =
    if x == "a" then "b" ∷ [] else if x == "b" then "c" ∷ [] else if x == "c" then "b" ∷ [] else []

Reported : List (List String) → Option Search → Type 0
Reported cs none = ⊥
Reported cs (some s) = s.cycles ≡ cs

ring-Reported : Reported (("b" ∷ "c" ∷ "b" ∷ []) ∷ []) (detect_cycles ring 3 ("a" ∷ "b" ∷ "c" ∷ []))
unfolding Reported detect_cycles
ring-Reported = refl

nested-Reported : Reported [] (detect_cycles (step_graph nested primitives) 2 names)
unfolding Reported detect_cycles step_graph
nested-Reported = refl

-- A node gets the inputs of both steps, the outer one's first.
abbrev HasInputs : List (String × Expr) → Comp ExpandError NodeDecl → Type 0
HasInputs m (ok n) = (n.type ≡ some "process.exec") × (n.inputs ≡ m)
HasInputs m r = ⊥

abbrev web : NodeDecl
web = record (body (some "restart") []) { name = "web" }

expand_web :
    HasInputs (("cmd", ident "c") ∷ ("cwd", ident "b") ∷ []) (expand_node nested primitives 2 web)
unfolding expand_node merge
expand_web = (refl, refl)

untyped_lem : expand_node nested primitives 2 (body none []) ≡ err node_without_type
unfolding expand_node
untyped_lem = refl

known_closed :
    (x : String)
    → mem x names ≡ true
    → All (λ v. mem v names ≡ true) (step_graph nested primitives x)
unfolding step_graph
known_closed x m = ground arith

detect_cycles_exact_example :
    (s : Search) × (detect_cycles (step_graph nested primitives) 2 names ≡ some s)
    × (IsClean s ↔ (
        (order : List String) × IsOrder (step_graph nested primitives) order
        × All (λ u. mem u order ≡ true) names))
detect_cycles_exact_example =
    detect_cycles_exact (step_graph nested primitives) names 2 names known_closed (refl, (refl, tt))
      (omega arith)

found_in_nested :
    (P : String × StepDecl → Type 0)
    → All P nested
    → (x : String) (s : StepDecl) → get? x nested ≡ some s
    → P (x, s)
found_in_nested P all x s at = All-get? P nested x all at

nested-named : (x : String) (s : StepDecl) → get? x nested ≡ some s → s.name ≡ x
nested-named = found_in_nested (λ e. e.1.name ≡ e.0) (refl, (refl, tt))

nested-listed : (x : String) (s : StepDecl) → get? x nested ≡ some s → mem x names ≡ true
nested-listed = found_in_nested (λ e. mem e.0 names ≡ true) (refl, (refl, tt))

nested-resolved :
    (x : String) (s : StepDecl) → get? x nested ≡ some s → resolves nested primitives s ≡ true
unfolding resolves
nested-resolved = found_in_nested (λ e. resolves nested primitives e.1 ≡ true) (refl, (refl, tt))

-- The validation knows a primitive more than the expansion.
abbrev known : List String
known = "process.exec" ∷ "health.check" ∷ []

nested-apart : (x : String) (s : StepDecl) → get? x nested ≡ some s → mem x known ≡ false
nested-apart = found_in_nested (λ e. mem e.0 known ≡ false) (refl, (refl, tt))

abbrev searched : Search
unfolding detect_cycles step_graph
searched = elim (detect_cycles (step_graph nested known) 2 names) as (λ o. Search) [
  | none ↦ record { visited = λ x. false; rec_stack = λ x. false; cycles = [] }
  | some s ↦ s
]

nested-searched : detect_cycles (step_graph nested known) 2 names ≡ some searched
unfolding detect_cycles step_graph
nested-searched = refl

searched-IsClean : IsClean searched
unfolding detect_cycles step_graph
searched-IsClean = refl

expand_step-IsPrimitive_example :
    (k : ℕ) × ((f : ℕ)
      → k ≤ f
      → (x : String) (s : StepDecl) → get? x nested ≡ some s
      → (n : NodeDecl) × (c : Cache) × (expand_step nested primitives f s [] ≡ ok (n, c))
        × IsPrimitive primitives n)
expand_step-IsPrimitive_example =
    expand_step-IsPrimitive nested known primitives names 2 {r = searched} nested-searched
      searched-IsClean nested-named nested-listed nested-resolved nested-apart
