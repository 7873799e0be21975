-- ===== src/Devlang/Compile/Sound.antt =====
-- The plans that CompileFileV0_4 lowers, before the validation of the plan.
use dotdevops.Prelude.{
  ℕ, String, ◌≡◌, ◌≢◌, refl, sym, ap, subst, true, false, not, ◌==◌, Option, none, some, List, [],
  ◌∷◌, map, arith, mem, get?, has, is_empty, Option-cases, inl, inr, eq_iff, eq_refl, All,
  of_mem-All,
}
use dotdevops.Json.{Value, Fields}
use dotdevops.Plan.Schema.{Node, Plan, ids}
use dotdevops.Controller.Compare.{value_at}
use dotdevops.Plan.Validate.Valid.{IsValid, validate-IsValid_iff}
use dotdevops.Plan.Validate as Ir
use dotdevops.Plan.Validate.{
  missing_version, no_targets, no_nodes, is_command, is_string_if_there, target_ids_of, validate,
}
use dotdevops.Devlang.Ast.{Expr, LetEnv}
use dotdevops.Devlang.Comp.{Comp, ok, err, no_fuel, ok_inj, bind-eq-ok, ◌>>=◌}
use dotdevops.Devlang.Decl.{NodeDecl, Decl, node_decl}
use dotdevops.Devlang.Validate.{
  Failure, Steps, keys, pick, command, string_if_there, resolve_inputs, input_problems,
}
use dotdevops.Devlang.Validate.Tables.{absent-has, target_names, node_names, AllNodes}
use dotdevops.Devlang.Validate.Versions.{primitive_types, validate_v0_4}
use dotdevops.Devlang.Validate.Accepted.{
  HasPolicy, Accepted, AllNodes-map, AllNodes-both, Visits, validate_v0_4-Accepted,
}
use dotdevops.Devlang.Validate.Nodes.{
  IsChecked, check_node-IsChecked, resolved, process_inputs, command-is_command, cwd-is_string,
}
use dotdevops.Devlang.Lower.{
  LowerError, lower_expr, lower_inputs, lower_effective, lower_node, lower_targets, lower_nodes,
  lower_v0_4, effective_node, instance_of, plan_node, or_else, or_empty,
}
use dotdevops.Devlang.Lower.Inputs.{Lowered, lower_inputs-Lowered}
use dotdevops.Devlang.Lower.Nodes.{
  lower_targets-ids, lower_nodes-ids, lower_nodes-All, node-effective, effective-plan_node,
}
use dotdevops.Devlang.Compile.{
  CompileError, refused, not_lowered, invalid_plan, lift, checked_plan, compile_v0_4,
}
use dotdevops.Devlang.Compile.Left.{
  is_custom, custom_node, IsLeft, All-append, All-report, IsFine, nodes-IsLeft, targets-IsLeft,
}

-- A node of the file whose type is a step is a custom node under its name.
IsListed : List Decl → NodeDecl → Type 0
IsListed ds n = is_custom n.type ≡ true → custom_node ds n.name ≡ true

all-IsListed : (ds : List Decl) → AllNodes (IsListed ds) ds
unfolding IsListed
all-IsListed [] = tt
all-IsListed (node_decl n ∷ ds) = (
  λ c. ground (arith, eq_refl n.name),
  AllNodes-map (IsListed ds) (IsListed (node_decl n ∷ ds)) ds (λ m f c. ground (arith, f c))
      (all-IsListed ds),
)
all-IsListed (d ∷ ds) = all-IsListed ds

primitive-nonempty : (t : String) → mem t primitive_types ≡ true → (t == "") ≡ false
primitive-nonempty t m =
    of_mem-All (λ x. (x == "") ≡ false) primitive_types (refl, (refl, (refl, (refl, (refl, tt))))) t
      m

policy-fine : (p : Option String) → HasPolicy p → Ir.known_policy (or_empty p) ≡ true
policy-fine none h = refl
policy-fine (some p) h = ground arith

or_else-HasPolicy : (p q : Option String) → HasPolicy p → HasPolicy q → HasPolicy (or_else p q)
or_else-HasPolicy none q h k = k
or_else-HasPolicy (some p) q h k = h

module _ (format : Value → String) (fuel : ℕ) (lets : LetEnv) where
  cmd-fine :
      (e : Option Expr) (v : Option Value)
      → command (resolved lets e) ≡ []
      → Lowered (lower_expr format fuel lets) e v
      → is_command v ≡ true
  unfolding command
  cmd-fine none v h low = cc
  cmd-fine (some e) none h low = absurd low
  cmd-fine (some e) (some v) h low = command-is_command format lets fuel e h low

  cwd-fine :
      (e : Option Expr) (v : Option Value)
      → string_if_there "process.exec" "cwd" (resolved lets e) ≡ []
      → Lowered (lower_expr format fuel lets) e v
      → is_string_if_there v ≡ true
  cwd-fine none none h low = refl
  cwd-fine none (some v) h low = absurd low
  cwd-fine (some e) none h low = absurd low
  cwd-fine (some e) (some v) h low = cwd-is_string format lets fuel e h low

  module _ (visit : List String → List String) (visits : Visits visit) where
    process-fine :
        (m : List (String × Expr)) (t : String) {fs : Fields}
        → input_problems t (resolve_inputs lets m) ≡ []
        → lower_inputs (lower_expr format fuel lets) (pick m (visit (keys m))) ≡ ok fs
        → (t == "process.exec") ≡ true
        → (is_command (value_at "cmd" fs) ≡ true) × (is_string_if_there (value_at "cwd" fs) ≡ true)
    process-fine m t {fs} h low exec =
        let (cmd, cwd) = process_inputs lets m (
          subst (λ u. input_problems u (resolve_inputs lets m) ≡ [])
            ((eq_iff t "process.exec").0 exec) h) in
        let at =
          λ (k : String). lower_inputs-Lowered (lower_expr format fuel lets) visit m k visits low in
        (
          cmd-fine (get? "cmd" m) (value_at "cmd" fs) cmd (at "cmd"),
          cwd-fine (get? "cwd" m) (value_at "cwd" fs) cwd (at "cwd"),
        )

    module _ (ds : List Decl) (steps : Steps) (accepted : Accepted lets steps ds) where
      node-IsFine :
          (n : NodeDecl) (q : Node)
          → IsChecked lets steps ds n × IsListed ds n
          → lower_node format fuel visit lets steps n ≡ ok q
          → IsFine ds q
      unfolding effective_node instance_of plan_node IsListed
      node-IsFine n q (checked, listed) h =
          let (t, is, low) = node-effective format fuel visit lets steps n h in
          let (t', is', known, inputs) = checked.type in
          let same : t' ≡ t = cc in
          elim (Option-cases (get? t steps)) [
            | inl own ↦
                let (u, fs, type, values, eq) = effective-plan_node format fuel visit lets n (
                  subst (λ o. lower_effective format fuel visit lets (effective_node o n) ≡ ok q)
                    own low) in
                let no_step : has t' steps ≡ false =
                  absent-has t' steps (subst (λ x. get? x steps ≡ none) (sym same) own) in
                let prim : mem t' primitive_types ≡ true = ground arith in
                let here : t' ≡ u = cc in
                subst (IsFine ds) eq (record {
                  type = primitive-nonempty u (subst (λ x. mem x primitive_types ≡ true) here prim);
                  targets = checked.targets;
                  depends_on = checked.depends_on;
                  when = refl;
                  policy = policy-fine n.failure_policy checked.policy;
                  inputs = inr (λ exec.
                      process-fine n.inputs u
                        (subst (λ x. input_problems x (resolve_inputs lets n.inputs) ≡ []) here
                          (inputs prim))
                        values exec);
                })
            | inr (s, of) ↦
                let (u, fs, type, values, eq) =
                  effective-plan_node format fuel visit lets (instance_of s n) (
                    subst (λ o. lower_effective format fuel visit lets (effective_node o n) ≡ ok q)
                      of low) in
                let (custom, sound) = accepted.sound_steps t s of in
                let (w, body, prim) = sound.type in
                let here : w ≡ u = cc in
                subst (IsFine ds) eq (record {
                  type = primitive-nonempty u (subst (λ x. mem x primitive_types ≡ true) here prim);
                  targets = checked.targets;
                  depends_on = checked.depends_on;
                  when = refl;
                  policy = policy-fine _ (
                      or_else-HasPolicy n.failure_policy s.body.failure_policy checked.policy
                        sound.policy);
                  inputs = inl (listed (subst (λ o. is_custom o ≡ true) (sym is) (ap not custom)));
                })
          ]

      plan-IsLeft :
          (p : Plan)
          → lower_v0_4 format fuel visit lets steps ds ≡ ok p
          → All (IsLeft ds) (validate p)
      unfolding lower_v0_4 validate
      plan-IsLeft p h =
          let (ts, targets, h1) = bind-eq-ok (lower_targets ds) _ h in
          let (qs, nodes, h2) = bind-eq-ok (lower_nodes format fuel visit lets steps ds) _ h1 in
          let fine : All (IsFine ds) qs =
            lower_nodes-All format fuel visit lets steps
              (λ n. IsChecked lets steps ds n × IsListed ds n) (IsFine ds) node-IsFine ds
              (AllNodes-both _ _ ds
                (AllNodes-map _ _ ds (check_node-IsChecked lets steps ds) accepted.nodes)
                (all-IsListed ds))
              nodes in
          let P = IsLeft ds in
          subst (λ r. All P (validate r)) (ok_inj h2)
            (All-append P _ _
              (All-append P _ _
                (All-append P _ _
                  (All-append P [] _ tt (All-report P (is_empty ts) no_targets (λ b. tt)))
                  (All-report P (is_empty qs) no_nodes (λ b. tt)))
                (targets-IsLeft ds 0 ts))
              (subst (λ l. All P (Ir.all_node_problems l (ids qs) 0 qs))
                (sym (lower_targets-ids ds targets))
                (subst (λ l. All P (Ir.all_node_problems (target_names ds) l 0 qs))
                  (sym (lower_nodes-ids format fuel visit lets steps ds nodes))
                  (nodes-IsLeft ds 0 qs fine))))

-- What each outcome of a compilation says of the file.
abbrev pub Outcome : List Decl → Comp CompileError Plan → Type 0
Outcome ds (ok p) =
    IsValid p × (map (λ t. t.id) p.targets ≡ target_names ds) × (ids p.nodes ≡ node_names ds)
Outcome ds (err (invalid_plan ps)) = (ps ≢ []) × All (IsLeft ds) ps
Outcome ds _ = Unit

module _ (format : Value → String) (fuel : ℕ) (visit : List String → List String) where
  lowered-names :
      (lets : LetEnv) (steps : Steps) (ds : List Decl) {p : Plan}
      → lower_v0_4 format fuel visit lets steps ds ≡ ok p
      → (map (λ t. t.id) p.targets ≡ target_names ds) × (ids p.nodes ≡ node_names ds)
  unfolding lower_v0_4
  lowered-names lets steps ds h =
      let (ts, targets, h1) = bind-eq-ok (lower_targets ds) _ h in
      let (qs, nodes, h2) = bind-eq-ok (lower_nodes format fuel visit lets steps ds) _ h1 in
      subst
        (λ (r : Plan).
          (map (λ t. t.id) r.targets ≡ target_names ds) × (ids r.nodes ≡ node_names ds))
        (ok_inj h2)
        (lower_targets-ids ds targets, lower_nodes-ids format fuel visit lets steps ds nodes)

  checked-Outcome :
      (ds : List Decl) (p : Plan)
      → All (IsLeft ds) (validate p)
      → (map (λ t. t.id) p.targets ≡ target_names ds) × (ids p.nodes ≡ node_names ds)
      → Outcome ds (checked_plan p)
  unfolding checked_plan
  checked-Outcome ds p left names = go (validate p) refl
    where
      go : (ps : List Ir.Problem) → validate p ≡ ps → Outcome ds (checked_plan p)
      go [] e = rw (e, checked_plan) ((validate-IsValid_iff p).0 e, names.0, names.1)
      go (q ∷ qs) e = rw (e, checked_plan) ((λ n. cc), subst (All (IsLeft ds)) e left)

  -- A file that version 0.4 compiles gives a valid plan with the targets and the nodes of the
  -- file under their names and in their order. Where only the validation of the plan refuses it,
  -- each error is about a missing name, address, target or node, or about the inputs of
  -- process.exec in a node whose type is a step, whatever the order of the visits.
  pub compile_v0_4-Outcome :
      (ds : List Decl) → Visits visit → Outcome ds (compile_v0_4 format fuel visit ds)
  unfolding compile_v0_4
  compile_v0_4-Outcome ds visits = validated (validate_v0_4 fuel visit ds) refl
    where
      lowered :
          (lets : LetEnv) (steps : Steps)
          → Accepted lets steps ds
          → (r : Comp LowerError Plan) → lower_v0_4 format fuel visit lets steps ds ≡ r
          → Outcome ds (lift not_lowered r >>= checked_plan)
      lowered lets steps accepted (ok p) e =
          checked-Outcome ds p (plan-IsLeft format fuel lets visit visits ds steps accepted p e)
            (lowered-names lets steps ds e)
      lowered lets steps accepted (err x) e = tt
      lowered lets steps accepted no_fuel e = tt

      validated :
          (r : Comp Failure (LetEnv × Steps))
          → validate_v0_4 fuel visit ds ≡ r
          → Outcome ds (
              lift refused r >>= λ (lets, steps).
              lift not_lowered (lower_v0_4 format fuel visit lets steps ds) >>= checked_plan)
      validated (ok (lets, steps)) e =
          lowered lets steps (validate_v0_4-Accepted fuel visit ds visits e).0
            (lower_v0_4 format fuel visit lets steps ds) refl
      validated (err x) e = tt
      validated no_fuel e = tt
