-- ===== src/Devlang/Unroll.antt =====
-- LowerToPlanV0_5 of internal/devlang/lower.go with substituteLoopVariable and lowerNodeToPlan: the
-- loops of a file are unrolled and its steps expanded. `sort` is sort.Strings.
pub mod Names
use dotdevops.Prelude.{ℕ, String, Option, none, some, List, [], ◌∷◌, ◌++◌, mem, if◌then◌else◌}
use dotdevops.Json.{Value, Values, Fields, slice, object, end, field}
use dotdevops.Json as Json
use dotdevops.Controller.Compare.{value_at}
use dotdevops.Plan.Schema.{Target, Node, Plan}
use dotdevops.Devlang.Ast.{Expr, Exprs, LetEnv, str, list, secret, nil, cons}
use dotdevops.Devlang.Comp.{Comp, ok, err, no_fuel, ◌>>=◌}
use dotdevops.Devlang.Decl.{NodeDecl, Decl, Decls, node_decl, for_decl, decl}
use dotdevops.Devlang.Decl as Decl
use dotdevops.Devlang.Validate.{keys, pick, Steps, resolve_let}
use dotdevops.Devlang.Lower.{LowerError, lower_expr, lower_targets, plan_node, with_type}
use dotdevops.Devlang.Lower as Lower
use dotdevops.Devlang.Compile.{lift}
use dotdevops.Devlang.Steps.{ExpandError, clone, expand_node}
use dotdevops.Devlang.Substitute.{substitute}
use Prim.Native.String as Text

-- the map primitiveTypes of LowerToPlanV0_5
abbrev pub expandable : List String
expandable = "file.sync" ∷ "process.exec" ∷ []

unfoldable mutual
  -- substituteInExpr
  pub substitute_expr : String → String → Expr → Expr
  substitute_expr x v (str s) = str (substitute x v s)
  substitute_expr x v (list es) = list (substitute_elems x v es)
  substitute_expr x v e = e

  pub substitute_elems : String → String → Exprs → Exprs
  substitute_elems x v nil = nil
  substitute_elems x v (cons e es) = cons (substitute_expr x v e) (substitute_elems x v es)

unfoldable pub substitute_inputs : String → String → List (String × Expr) → List (String × Expr)
unfolding substitute_expr
substitute_inputs x v [] = []
substitute_inputs x v ((k, e) ∷ m) = (k, substitute_expr x v e) ∷ substitute_inputs x v m

-- substituteLoopVariable
unfoldable pub substitute_node : String → String → NodeDecl → NodeDecl
unfolding substitute_inputs
substitute_node x v n = record n {
  name = substitute x v n.name;
  inputs = substitute_inputs x v n.inputs;
}

abbrev pub sentinel : String → String
sentinel k = Text.◌++◌ "[SECRET:" (Text.◌++◌ k "]")

-- A value, and the key of the secret that it stands for.
abbrev pub Sealed : Type 0
Sealed = Value × Option String

abbrev pub sealed_object : Fields → Option Value → Sealed
sealed_object fs (some (Json.str k)) = (Json.str (sentinel k), some k)
sealed_object fs _ = (object fs, none)

unfoldable pub sealed : Value → Sealed
sealed (object fs) = sealed_object fs (value_at "__secret__" fs)
sealed v = (v, none)

-- one round of the loop over the inputs
unfoldable pub lower_input : (Expr → Comp LowerError Value) → Expr → Comp LowerError Sealed
unfolding sealed
lower_input lower (secret k) = ok (Json.str (sentinel k), some k)
lower_input lower e = lower e >>= λ v. ok (sealed v)

-- secretSet[key] = true
abbrev pub with_key : Option String → List String → List String
with_key none ks = ks
with_key (some k) ks = if mem k ks then ks else k ∷ ks

unfoldable pub seal_inputs :
    (Expr → Comp LowerError Value) → List (String × Expr) → Comp LowerError (Fields × List String)
unfolding lower_input
seal_inputs lower [] = ok (end, [])
seal_inputs lower ((k, e) ∷ m) = lower_input lower e >>= λ (v, key).
    seal_inputs lower m >>= λ (fs, ks). ok (field k v fs, with_key key ks)

abbrev pub sorted_keys : (List String → List String) → List String → List String
sorted_keys sort [] = []
sorted_keys sort (k ∷ ks) = sort (k ∷ ks)

pub data UnrollError : Type 0 where
  not_expanded : ExpandError → UnrollError
  not_lowered : LowerError → UnrollError
  not_a_list : UnrollError

-- ForDecl
pub record ForDecl : Type 0 where
  pub var_name : String
  pub range : Expr
  pub body : Decls

-- the loop that collects the for-loops
unfoldable pub for_loops : List Decl → List ForDecl
for_loops [] = []
for_loops (for_decl x e b ∷ ds) = record { var_name = x; range = e; body = b } ∷ for_loops ds
for_loops (d ∷ ds) = for_loops ds

module _ (format : Value → String) (fuel : ℕ) (sort visit : List String → List String)
    (lets : LetEnv) (steps : Steps) where
  -- lowerNodeToPlan
  unfoldable pub lower_node_to_plan : NodeDecl → Comp LowerError Node
  unfolding seal_inputs plan_node
  lower_node_to_plan n = with_type n.type (λ t.
      seal_inputs (lower_expr format fuel lets) (pick n.inputs (visit (keys n.inputs))) >>= λ r.
      ok (record (plan_node t n r.0) { requires_secrets = sorted_keys sort r.1 }))

  -- a node, expanded and lowered
  unfoldable pub lower_expanded : NodeDecl → Comp UnrollError Node
  unfolding lower_node_to_plan expand_node
  lower_expanded n = lift not_expanded (expand_node steps expandable fuel n) >>= λ m.
      lift not_lowered (lower_node_to_plan m)

  abbrev pub of_type : NodeDecl → Option String → Comp UnrollError Node
  of_type n none = err (not_lowered (Lower.missing_type n.name))
  of_type n (some t) = lower_expanded n

  -- the nodes outside the loops
  unfoldable pub lower_outer : List Decl → Comp UnrollError (List Node)
  unfolding lower_expanded
  lower_outer [] = ok []
  lower_outer (node_decl n ∷ ds) = of_type n n.type >>= λ p. lower_outer ds >>= λ ps. ok (p ∷ ps)
  lower_outer (d ∷ ds) = lower_outer ds

  -- the loop over the body, for one value of the variable
  unfoldable pub unroll_body : String → String → Decls → Comp UnrollError (List Node)
  unfolding lower_expanded substitute_node clone
  unroll_body x v Decl.end = ok []
  unroll_body x v (decl (node_decl n) ds) = lower_expanded (substitute_node x v (clone n)) >>= λ p.
      unroll_body x v ds >>= λ ps. ok (p ∷ ps)
  unroll_body x v (decl d ds) = unroll_body x v ds

  -- the loop over the elements
  unfoldable pub unroll_elems : String → Decls → Exprs → Comp UnrollError (List Node)
  unfolding unroll_body
  unroll_elems x body nil = ok []
  unroll_elems x body (cons (str v) es) =
      unroll_body x v body >>= λ ps. unroll_elems x body es >>= λ qs. ok (ps ++ qs)
  unroll_elems x body (cons e es) = unroll_elems x body es

  abbrev pub unroll_range : String → Decls → Expr → Comp UnrollError (List Node)
  unfolding unroll_elems
  unroll_range x body (list es) = unroll_elems x body es
  unroll_range x body e = err not_a_list

  -- the loop over the for-loops
  unfoldable pub unroll : List ForDecl → Comp UnrollError (List Node)
  unfolding unroll_elems resolve_let
  unroll [] = ok []
  unroll (l ∷ ls) = unroll_range l.var_name l.body (resolve_let lets l.range) >>= λ ps.
      unroll ls >>= λ qs. ok (ps ++ qs)

  -- LowerToPlanV0_5
  unfoldable pub lower_v0_5 : List ForDecl → List Decl → Comp UnrollError Plan
  unfolding lower_targets lower_outer unroll
  lower_v0_5 loops ds = lift not_lowered (lower_targets ds) >>= λ targets.
      lower_outer ds >>= λ nodes. unroll loops >>= λ unrolled.
      ok (record { version = "1.0"; targets = targets; nodes = nodes ++ unrolled })
