-- ===== src/Devlang/Lower/Whole.antt =====
-- The lowering of a whole file that version 0.4 accepts.
use dotdevops.Prelude.{
  ℕ, String, ◌≡◌, ◌≢◌, refl, sym, ap, ◌∙◌, subst, ◌≤◌, none, some, List, [], ◌∷◌, get?,
  Option-cases, inl, inr,
}
use dotdevops.Prelude.Fuel.{always, both}
use dotdevops.Json.{Value, end, field}
use dotdevops.Plan.Schema.{Target, Node, Plan}
use dotdevops.Devlang.Ast.{Expr, LetEnv}
use dotdevops.Devlang.Comp.{Comp, ok, ◌>>=◌}
use dotdevops.Devlang.Eval.Literal.{IsLiteral}
use dotdevops.Devlang.Decl.{TargetDecl, NodeDecl, StepDecl, Decl, target_decl, node_decl}
use dotdevops.Devlang.Validate.{keys, pick, Steps}
use dotdevops.Devlang.Validate.Tables.{AllNodes}
use dotdevops.Devlang.Validate.Accepted.{
  IsSoundStep, AllNodes-map, AllNodes-both, Visits, validate_v0_4-Accepted,
}
use dotdevops.Devlang.Validate.Nodes.{check_node-IsChecked}
use dotdevops.Devlang.Validate.Versions.{validate_v0_4}
use dotdevops.Devlang.Lower.{
  LowerError, lower_expr, lower_inputs, merge, lower_effective, lower_typed, lower_node,
  lower_target, lower_targets, lower_nodes, lower_v0_4, effective_node, instance_of, plan_node,
  with_type,
}
use dotdevops.Devlang.Lower.Total.{Returns, Returns-bind, returned, value-lowers}
use dotdevops.Devlang.Lower.Returns.{
  lets-IsLiteral, AreInputs, All-picked, merge-AreInputs, HasAddresses,
}

-- A computation that another one is equal to, at every amount of fuel.
same_as : {E A : Type 0} (m k : ℕ → Comp E A) → ((f : ℕ) → m f ≡ k f) → Returns k → Returns m
same_as {E} {A} m k eq (a, h) =
    (a, both (λ f. k f ≡ ok a) (λ f. m f ≡ k f) (λ f. m f ≡ ok a) (λ f p q. q ∙ p) h (always _ eq))

target-returns : (t : TargetDecl) → t.address ≢ none → (p : Target) × (lower_target t ≡ ok p)
unfolding lower_target
target-returns t h = elim (Option-cases t.address) [
  | inl e ↦ absurd (h e)
  | inr (a, e) ↦ (record { id = t.name; address = a; labels = [] }, rw (e, lower_target) refl)
]

targets-return :
    (ds : List Decl) → HasAddresses ds → (ts : List Target) × (lower_targets ds ≡ ok ts)
unfolding lower_targets
targets-return [] h = ([], refl)
targets-return (target_decl t ∷ ds) h =
    let (p, own) = target-returns t h.0 in
    let (ps, rest) = targets-return ds h.1 in (p ∷ ps, rw (own, rest) refl)
targets-return (d ∷ ds) h = targets-return ds h

module _ (format : Value → String) (visit : List String → List String) (lets : LetEnv)
    (literals : (x : String) (e : Expr) → get? x lets ≡ some e → IsLiteral e) where
  inputs-return :
      (m : List (String × Expr))
      → AreInputs lets m
      → Returns (λ f. lower_inputs (lower_expr format f lets) m)
  unfolding lower_inputs
  inputs-return [] h = returned _ end (λ f. refl)
  inputs-return ((k, e) ∷ m) h =
      Returns-bind (λ f. lower_expr format f lets e) _ (value-lowers format lets literals e h.0)
        (λ v.
          Returns-bind (λ f. lower_inputs (lower_expr format f lets) m) _ (inputs-return m h.1)
            (λ fs. returned _ (field k v fs) (λ f. refl)))

  abbrev of_type : NodeDecl → ℕ → String → Comp LowerError Node
  of_type n f t =
      lower_inputs (lower_expr format f lets) (pick n.inputs (visit (keys n.inputs))) >>= λ fs.
      ok (plan_node t n fs)

  effective-Returns :
      (n : NodeDecl) (t : String)
      → n.type ≡ some t
      → AreInputs lets n.inputs
      → Returns (λ f. lower_effective format f visit lets n)
  unfolding lower_effective
  effective-Returns n t is h =
      same_as _ _ (λ f. ap (λ o. with_type o (of_type n f)) is)
        (Returns-bind
          (λ f. lower_inputs (lower_expr format f lets) (pick n.inputs (visit (keys n.inputs)))) _
          (inputs-return (pick n.inputs (visit (keys n.inputs)))
            (All-picked _ n.inputs (visit (keys n.inputs)) h))
          (λ fs. returned _ (plan_node t n fs) (λ f. refl)))

  module _ (steps : Steps)
      (sound : (x : String) (s : StepDecl) → get? x steps ≡ some s → IsSoundStep s)
      (step_inputs : (x : String) (s : StepDecl)
        → get? x steps ≡ some s
        → AreInputs lets s.body.inputs) where
    node-Returns :
        (n : NodeDecl) (t : String)
        → n.type ≡ some t
        → AreInputs lets n.inputs
        → Returns (λ f. lower_node format f visit lets steps n)
    unfolding lower_node lower_typed effective_node instance_of
    node-Returns n t is h =
        same_as _ (λ f. lower_effective format f visit lets (effective_node (get? t steps) n))
          (λ f. ap (lower_typed format f visit lets steps n) is)
          (elim (Option-cases (get? t steps)) [
            | inl e ↦
                subst (λ o. Returns (λ f. lower_effective format f visit lets (effective_node o n)))
                  (sym e) (effective-Returns n t is h)
            | inr (s, e) ↦
                let (u, body, prim) = (sound t s e).type in
                subst (λ o. Returns (λ f. lower_effective format f visit lets (effective_node o n)))
                  (sym e)
                  (effective-Returns (instance_of s n) u body (
                    merge-AreInputs lets (merge [] s.body.inputs) n.inputs
                      (merge-AreInputs lets [] s.body.inputs tt (step_inputs t s e)) h))
          ])

    nodes-return :
        (ds : List Decl)
        → AllNodes (λ n. ((t : String) × (n.type ≡ some t)) × AreInputs lets n.inputs) ds
        → Returns (λ f. lower_nodes format f visit lets steps ds)
    unfolding lower_nodes
    nodes-return [] h = returned _ [] (λ f. refl)
    nodes-return (node_decl n ∷ ds) h =
        Returns-bind (λ f. lower_node format f visit lets steps n) _
          (node-Returns n h.0.0.0 h.0.0.1 h.0.1)
          (λ p.
            Returns-bind (λ f. lower_nodes format f visit lets steps ds) _ (nodes-return ds h.1)
              (λ ps. returned _ (p ∷ ps) (λ f. refl)))
    nodes-return (d ∷ ds) h = nodes-return ds h

-- A file that version 0.4 accepts, with an address for each target and with literals, lets, lists
-- and sums of these as the inputs of its nodes and steps, is lowered to a plan: the same for all
-- fuel from some amount on.
pub lower_v0_4-Returns :
    (format : Value → String) (fuel : ℕ) (visit : List String → List String) (ds : List Decl)
    {lets : LetEnv} {steps : Steps}
    → Visits visit
    → validate_v0_4 fuel visit ds ≡ ok (lets, steps)
    → HasAddresses ds
    → AllNodes (λ n. AreInputs lets n.inputs) ds
    → ((x : String) (s : StepDecl) → get? x steps ≡ some s → AreInputs lets s.body.inputs)
    → (p : Plan) × (k : ℕ) × ((f : ℕ) → k ≤ f → lower_v0_4 format f visit lets steps ds ≡ ok p)
unfolding lower_v0_4
lower_v0_4-Returns format fuel visit ds {lets} {steps} visits valid addresses inputs step_inputs =
    let (accepted, collected) = validate_v0_4-Accepted fuel visit ds visits valid in
    let literals = lets-IsLiteral fuel visit ds collected in
    let (ts, targets) = targets-return ds addresses in
    let with_targets : ℕ → Comp LowerError (List Target) → Comp LowerError Plan = λ f r. r >>= λ us.
    lower_nodes format f visit lets steps ds >>= λ nodes.
    ok (record { version = "1.0"; targets = us; nodes = nodes }) in
    let typed =
      AllNodes-both _ _ ds
        (AllNodes-map _ (λ n. (t : String) × (n.type ≡ some t)) ds
          (λ n h. let (t, is, r, i) = (check_node-IsChecked lets steps ds n h).type in (t, is))
          accepted.nodes)
        inputs in
    let (p, (k, h)) =
      same_as (λ f. lower_v0_4 format f visit lets steps ds) _ (λ f. ap (with_targets f) targets)
        (Returns-bind (λ f. lower_nodes format f visit lets steps ds)
          (λ f nodes. ok (record { version = "1.0"; targets = ts; nodes = nodes }))
          (nodes-return format visit lets literals steps (λ x s e. (accepted.sound_steps x s e).1)
            step_inputs ds typed)
          (λ qs. returned _ _ (λ f. refl))) in
    (p, k, h)
