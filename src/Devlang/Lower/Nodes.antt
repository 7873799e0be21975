-- ===== src/Devlang/Lower/Nodes.antt =====
-- The nodes and the targets of a lowered plan, from the declarations of the file.
use dotdevops.Prelude.{
  ℕ, String, ◌≡◌, refl, sym, ap, ◌∙◌, subst, Option, none, some, List, [], ◌∷◌, map, get?, Distinct,
  All, Option-cases, inl, inr,
}
use dotdevops.Json.{Value, Fields}
use dotdevops.Plan.Schema.{Target, Node, ids}
use dotdevops.Controller.Compare.{value_at}
use dotdevops.Devlang.Ast.{LetEnv}
use dotdevops.Devlang.Comp.{ok, ok_inj, bind-eq-ok}
use dotdevops.Devlang.Decl.{TargetDecl, NodeDecl, StepDecl, Decl, target_decl, node_decl}
use dotdevops.Devlang.Validate.{keys, pick, Steps}
use dotdevops.Devlang.Validate.Tables.{target_names, node_names, AllNodes}
use dotdevops.Devlang.Validate.Accepted.{Visits}
use dotdevops.Devlang.Lower.{
  lower_target, lower_targets, lower_expr, lower_inputs, lower_effective, effective_node,
  lower_typed, lower_node, lower_nodes, plan_node, instance_of, merge, or_else, or_empty,
}
use dotdevops.Devlang.Lower.Inputs.{Lowered, lower_inputs-Lowered, get?-merge}

or_else-none {ℓ} : {A : Type ℓ} (o : Option A) → or_else o none ≡ o
or_else-none none = refl
or_else-none (some a) = refl

lower_target-id : (t : TargetDecl) {p : Target} → lower_target t ≡ ok p → p.id ≡ t.name
unfolding lower_target
lower_target-id t h = elim (Option-cases t.address) [
  | inl e ↦ absurd (cc (rw e at h))
  | inr (a, e) ↦ cc (rw e at h)
]

pub lower_targets-ids :
    (ds : List Decl) {ts : List Target}
    → lower_targets ds ≡ ok ts
    → map (λ t. t.id) ts ≡ target_names ds
unfolding lower_targets
lower_targets-ids [] h = subst (λ l. map (λ (t : Target). t.id) l ≡ []) (ok_inj h) refl
lower_targets-ids (target_decl t ∷ ds) h =
    let (p, own, h1) = bind-eq-ok (lower_target t) _ h in
    let (ps, rest, h2) = bind-eq-ok (lower_targets ds) _ h1 in
    subst (λ l. map (λ (q : Target). q.id) l ≡ t.name ∷ target_names ds) (ok_inj h2)
      (λ i. lower_target-id t own i ∷ lower_targets-ids ds rest i)
lower_targets-ids (d ∷ ds) h = lower_targets-ids ds h

module _ (format : Value → String) (fuel : ℕ) (visit : List String → List String) where
  pub effective-plan_node :
      (lets : LetEnv) (n : NodeDecl) {p : Node}
      → lower_effective format fuel visit lets n ≡ ok p
      → (t : String) × (fs : Fields) × (n.type ≡ some t)
        × (lower_inputs (lower_expr format fuel lets) (pick n.inputs (visit (keys n.inputs)))
            ≡ ok fs)
        × (plan_node t n fs ≡ p)
  unfolding lower_effective
  effective-plan_node lets n h = elim (Option-cases n.type) [
    | inl e ↦ absurd (cc (rw e at h))
    | inr (t, e) ↦ let (fs, is, same) = bind-eq-ok _ _ (rw e at h) in (t, fs, e, is, ok_inj same)
  ]

  -- The declaration that is lowered for a node.
  pub node-effective :
      (lets : LetEnv) (steps : Steps) (n : NodeDecl) {p : Node}
      → lower_node format fuel visit lets steps n ≡ ok p
      → (t : String) × (n.type ≡ some t)
        × (lower_effective format fuel visit lets (effective_node (get? t steps) n) ≡ ok p)
  unfolding lower_node lower_typed
  node-effective lets steps n {p} h = elim (Option-cases n.type) [
    | inl e ↦ absurd (cc (subst (λ o. lower_typed format fuel visit lets steps n o ≡ ok p) e h))
    | inr (t, e) ↦ (t, e, subst (λ o. lower_typed format fuel visit lets steps n o ≡ ok p) e h)
  ]

  effective-name : (o : Option StepDecl) (n : NodeDecl) → (effective_node o n).name ≡ n.name
  unfolding effective_node instance_of
  effective-name none n = refl
  effective-name (some s) n = refl

  node-id :
      (lets : LetEnv) (steps : Steps) (n : NodeDecl) {p : Node}
      → lower_node format fuel visit lets steps n ≡ ok p
      → p.id ≡ n.name
  unfolding plan_node
  node-id lets steps n {p} h =
      let (t, is, low) = node-effective lets steps n h in
      let (u, fs, type, inputs, same) = effective-plan_node lets _ low in
      subst (λ (q : Node). q.id ≡ n.name) same (effective-name (get? t steps) n)

  pub lower_nodes-ids :
      (lets : LetEnv) (steps : Steps) (ds : List Decl) {ps : List Node}
      → lower_nodes format fuel visit lets steps ds ≡ ok ps
      → ids ps ≡ node_names ds
  unfolding lower_nodes
  lower_nodes-ids lets steps [] h = subst (λ l. ids l ≡ []) (ok_inj h) refl
  lower_nodes-ids lets steps (node_decl n ∷ ds) h =
      let (p, own, h1) = bind-eq-ok (lower_node format fuel visit lets steps n) _ h in
      let (ps, rest, h2) = bind-eq-ok (lower_nodes format fuel visit lets steps ds) _ h1 in
      subst (λ l. ids l ≡ n.name ∷ node_names ds) (ok_inj h2)
        (λ i. node-id lets steps n own i ∷ lower_nodes-ids lets steps ds rest i)
  lower_nodes-ids lets steps (d ∷ ds) h = lower_nodes-ids lets steps ds h

  -- A property of the lowered nodes, from one of their declarations.
  pub lower_nodes-All :
      (lets : LetEnv) (steps : Steps) (P : NodeDecl → Type 0) (Q : Node → Type 0)
      → ((n : NodeDecl) (p : Node) → P n → lower_node format fuel visit lets steps n ≡ ok p → Q p)
      → (ds : List Decl) {ps : List Node} → AllNodes P ds
      → lower_nodes format fuel visit lets steps ds ≡ ok ps
      → All Q ps
  unfolding lower_nodes
  lower_nodes-All lets steps P Q f [] all h = subst (All Q) (ok_inj h) tt
  lower_nodes-All lets steps P Q f (node_decl n ∷ ds) all h =
      let (p, own, h1) = bind-eq-ok (lower_node format fuel visit lets steps n) _ h in
      let (ps, rest, h2) = bind-eq-ok (lower_nodes format fuel visit lets steps ds) _ h1 in
      subst (All Q) (ok_inj h2) (f n p all.0 own, lower_nodes-All lets steps P Q f ds all.1 rest)
  lower_nodes-All lets steps P Q f (d ∷ ds) all h = lower_nodes-All lets steps P Q f ds all h

  -- A node of a step gets the type of the step's body, its own targets and dependencies, its own
  -- failure policy or else that of the step, and under each key the lowered value of its own
  -- input or else that of the step, whatever the order of the visits. The keys of the inputs of
  -- either are distinct.
  pub lower_node-instance :
      (lets : LetEnv) (steps : Steps) (n : NodeDecl) (s : StepDecl) (t : String) {p : Node}
      → Visits visit
      → n.type ≡ some t
      → get? t steps ≡ some s
      → Distinct (keys n.inputs)
      → Distinct (keys s.body.inputs)
      → lower_node format fuel visit lets steps n ≡ ok p
      → (some p.type ≡ s.body.type)
        × (p.targets ≡ n.targets)
        × (p.depends_on ≡ n.depends_on)
        × (p.failure_policy ≡ or_empty (or_else n.failure_policy s.body.failure_policy))
        × ((k : String)
            → Lowered
                (lower_expr format fuel lets)
                (or_else (get? k n.inputs) (get? k s.body.inputs))
                (value_at k p.inputs))
  unfolding lower_node lower_typed effective_node plan_node instance_of
  lower_node-instance lets steps n s t {p} visits is of own_keys step_keys h =
      let low : lower_effective format fuel visit lets (instance_of s n) ≡ ok p =
        rw (is, of) at h in
      let (u, fs, type, inputs, same) = effective-plan_node lets (instance_of s n) low in
      let at = λ (k : String).
        get?-merge n.inputs (merge [] s.body.inputs) k own_keys
        ∙ ap (or_else (get? k n.inputs)) (get?-merge s.body.inputs [] k step_keys) in
      subst
        (λ (q : Node).
          (some q.type ≡ s.body.type)
          × (q.targets ≡ n.targets)
          × (q.depends_on ≡ n.depends_on)
          × (q.failure_policy ≡ or_empty (or_else n.failure_policy s.body.failure_policy))
          × ((k : String)
              → Lowered (lower_expr format fuel lets)
                  (or_else (get? k n.inputs) (get? k s.body.inputs)) (value_at k q.inputs)))
        same
        (
          sym type,
          refl,
          refl,
          refl,
          λ k.
              subst (λ o. Lowered (lower_expr format fuel lets) o (value_at k fs))
                (at k ∙ ap (or_else (get? k n.inputs)) (or_else-none (get? k s.body.inputs)))
                (lower_inputs-Lowered (lower_expr format fuel lets) visit (instance_of s n).inputs k
                  visits inputs),
        )
