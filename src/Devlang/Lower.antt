-- ===== src/Devlang/Lower.antt =====
-- internal/devlang/lower.go for the versions 0.1 to 0.4: the plan that a validated file stands for.
-- `format` is fmt.Sprintf with %v on one value. A let is followed to its value each time it is
-- read: `fuel` bounds the depth of the calls.
pub mod Inputs
pub mod Nodes
pub mod Total
pub mod Returns
pub mod Whole
use Prim.Native.String as Text
use dotdevops.Prelude.{
  ℕ, zero, suc, String, false, Option, none, some, List, [], ◌∷◌, ◌++◌, ◌==◌, get?, if◌then◌else◌,
}
use dotdevops.Json.{Value, Values, Fields, slice, object, item, end, field}
use dotdevops.Json as Json
use dotdevops.Plan.Schema.{Target, Node, Plan}
use dotdevops.Devlang.Ast.{
  Expr, Exprs, LetEnv, BinaryOp, ident, str, bool, number, list, binary, ternary, secret, call,
  map_literal, nil, cons, op_add,
}
use dotdevops.Devlang.Comp.{Comp, ok, err, no_fuel, ◌>>=◌}
use dotdevops.Devlang.Decl.{TargetDecl, NodeDecl, StepDecl, Decl, target_decl, node_decl}
use dotdevops.Devlang.Validate.{keys, pick, Steps}

pub data LowerError : Type 0 where
  missing_address missing_type : String → LowerError
  not_a_value : String → LowerError
  unsupported_operator : BinaryOp → LowerError
  unsupported_node not_a_string : LowerError
  nil_pointer : LowerError

-- the loop of version 0.1 over a list
unfoldable pub lower_strings : Exprs → Comp LowerError Values
lower_strings nil = ok Values.none
lower_strings (cons (str s) es) = lower_strings es >>= λ vs. ok (item (Json.str s) vs)
lower_strings (cons e es) = err not_a_string

-- lowerExpr
unfoldable pub lower_expr_v0_1 : Expr → Comp LowerError Value
unfolding lower_strings
lower_expr_v0_1 (str s) = ok (Json.str s)
lower_expr_v0_1 (bool b) = ok (Json.bool b)
lower_expr_v0_1 (number n) = ok (Json.int n)
lower_expr_v0_1 (list es) = lower_strings es >>= λ vs. ok (slice vs)
lower_expr_v0_1 (ident x) = err (not_a_value x)
lower_expr_v0_1 e = err unsupported_node

unfoldable pub lower_elems : (Expr → Comp LowerError Value) → Exprs → Comp LowerError Values
lower_elems lower nil = ok Values.none
lower_elems lower (cons e es) = lower e >>= λ v. lower_elems lower es >>= λ vs. ok (item v vs)

-- the loop over the inputs, in the order of the visit
unfoldable pub lower_inputs :
    (Expr → Comp LowerError Value) → List (String × Expr) → Comp LowerError Fields
lower_inputs lower [] = ok end
lower_inputs lower ((k, e) ∷ inputs) =
    lower e >>= λ v. lower_inputs lower inputs >>= λ fs. ok (field k v fs)

-- m[k] = v
unfoldable pub set : String → Expr → List (String × Expr) → List (String × Expr)
set k e [] = (k, e) ∷ []
set k e ((j, d) ∷ m) = if j == k then (k, e) ∷ m else (j, d) ∷ set k e m

-- for k, v := range over { m[k] = v }
unfoldable pub merge : List (String × Expr) → List (String × Expr) → List (String × Expr)
unfolding set
merge m [] = m
merge m ((k, e) ∷ over) = merge (set k e m) over

abbrev pub or_else {ℓ} : {A : Type ℓ} → Option A → Option A → Option A
or_else none b = b
or_else (some a) b = some a

-- the node that is lowered for a node of a step: the body of the step below the node's own fields
unfoldable pub instance_of : StepDecl → NodeDecl → NodeDecl
unfolding merge
instance_of s n = record {
  name = n.name;
  type = s.body.type;
  targets = n.targets;
  depends_on = n.depends_on;
  failure_policy = or_else n.failure_policy s.body.failure_policy;
  inputs = merge (merge [] s.body.inputs) n.inputs;
  idempotent = none;
  side_effects = none;
  retry = none;
  rollback_cmd = none;
}

unfoldable pub effective_node : Option StepDecl → NodeDecl → NodeDecl
unfolding instance_of
effective_node none n = n
effective_node (some s) n = instance_of s n

abbrev pub or_empty : Option String → String
or_empty none = ""
or_empty (some s) = s

-- The type of the node is read without a test.
abbrev pub with_type : Option String → (String → Comp LowerError Node) → Comp LowerError Node
with_type none k = err nil_pointer
with_type (some t) k = k t

-- the node of the plan
unfoldable pub plan_node : String → NodeDecl → Fields → Node
plan_node type n inputs = record {
  id = n.name;
  type = type;
  targets = n.targets;
  depends_on = n.depends_on;
  when = none;
  failure_policy = or_empty n.failure_policy;
  inputs = inputs;
  idempotent = false;
  side_effects = "";
  retry = none;
  rollback_cmd = [];
  requires_secrets = [];
  probe = none;
  desired = none;
}

unfoldable pub lower_target : TargetDecl → Comp LowerError Target
lower_target t = elim t.address [
  | none ↦ err (missing_address t.name)
  | some a ↦ ok (record { id = t.name; address = a; labels = [] })
]

-- the loop over the targets
unfoldable pub lower_targets : List Decl → Comp LowerError (List Target)
unfolding lower_target
lower_targets [] = ok []
lower_targets (target_decl t ∷ ds) = lower_target t >>= λ p. lower_targets ds >>= λ ps. ok (p ∷ ps)
lower_targets (d ∷ ds) = lower_targets ds

module _ (format : Value → String) where
  -- lowerExprV0_2
  unfoldable pub lower_expr : ℕ → LetEnv → Expr → Comp LowerError Value
  unfolding lower_elems
  lower_expr zero lets e = no_fuel
  lower_expr (suc fuel) lets (str s) = ok (Json.str s)
  lower_expr (suc fuel) lets (bool b) = ok (Json.bool b)
  lower_expr (suc fuel) lets (number n) = ok (Json.int n)
  lower_expr (suc fuel) lets (list es) =
      lower_elems (lower_expr fuel lets) es >>= λ vs. ok (slice vs)
  lower_expr (suc fuel) lets (ident x) = elim (get? x lets) [
    | none ↦ err (not_a_value x)
    | some e ↦ lower_expr fuel lets e
  ]
  lower_expr (suc fuel) lets (binary op_add l r) = lower_expr fuel lets l >>= λ a.
      lower_expr fuel lets r >>= λ b. ok (Json.str (Text.◌++◌ (format a) (format b)))
  lower_expr (suc fuel) lets (binary op l r) =
      lower_expr fuel lets l >>= λ a. lower_expr fuel lets r >>= λ b. err (unsupported_operator op)
  lower_expr (suc fuel) lets (secret k) = ok (object (field "__secret__" (Json.str k) end))
  lower_expr (suc fuel) lets e = err unsupported_node

  module _ (fuel : ℕ) (visit : List String → List String) where
    -- the node that a node declaration becomes in version 0.4
    unfoldable pub lower_effective : LetEnv → NodeDecl → Comp LowerError Node
    unfolding lower_expr lower_inputs plan_node
    lower_effective lets n = with_type n.type (λ t.
        lower_inputs (lower_expr fuel lets) (pick n.inputs (visit (keys n.inputs))) >>= λ fs.
        ok (plan_node t n fs))

    unfoldable pub lower_typed : LetEnv → Steps → NodeDecl → Option String → Comp LowerError Node
    unfolding lower_effective effective_node
    lower_typed lets steps n none = err (missing_type n.name)
    lower_typed lets steps n (some t) = lower_effective lets (effective_node (get? t steps) n)

    unfoldable pub lower_node : LetEnv → Steps → NodeDecl → Comp LowerError Node
    unfolding lower_typed
    lower_node lets steps n = lower_typed lets steps n n.type

    -- the loop over the nodes
    unfoldable pub lower_nodes : LetEnv → Steps → List Decl → Comp LowerError (List Node)
    unfolding lower_node
    lower_nodes lets steps [] = ok []
    lower_nodes lets steps (node_decl n ∷ ds) =
        lower_node lets steps n >>= λ p. lower_nodes lets steps ds >>= λ ps. ok (p ∷ ps)
    lower_nodes lets steps (d ∷ ds) = lower_nodes lets steps ds

    -- LowerToPlanV0_4
    unfoldable pub lower_v0_4 : LetEnv → Steps → List Decl → Comp LowerError Plan
    unfolding lower_targets lower_nodes
    lower_v0_4 lets steps ds = lower_targets ds >>= λ targets.
        lower_nodes lets steps ds >>= λ nodes.
        ok (record { version = "1.0"; targets = targets; nodes = nodes })

-- the nodes and the targets of the versions without steps, in one loop; `lower` is lowerExpr or
-- lowerExprV0_2
module _ (lower : Expr → Comp LowerError Value) (visit : List String → List String) where
  unfoldable pub lower_decls : List Decl → Comp LowerError (List Target × List Node)
  unfolding lower_target lower_inputs plan_node
  lower_decls [] = ok ([], [])
  lower_decls (target_decl t ∷ ds) =
      lower_target t >>= λ p. lower_decls ds >>= λ (targets, nodes). ok (p ∷ targets, nodes)
  lower_decls (node_decl n ∷ ds) =
      lower_inputs lower (pick n.inputs (visit (keys n.inputs))) >>= λ fs.
      lower_decls ds >>= λ (targets, nodes). ok (targets, plan_node (or_empty n.type) n fs ∷ nodes)
  lower_decls (d ∷ ds) = lower_decls ds

  unfoldable pub lower_flat : List Decl → Comp LowerError Plan
  unfolding lower_decls
  lower_flat ds = lower_decls ds >>= λ (targets, nodes).
      ok (record { version = "1.0"; targets = targets; nodes = nodes })
