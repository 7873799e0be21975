-- ===== src/Devlang/Compile/Left.antt =====
-- What the validation of the plan can still find in a plan that version 0.4 has compiled.
use dotdevops.Prelude.{
  ℕ, suc, String, ◌≡◌, refl, sym, subst, ◌⊎◌, Bool, true, false, not, ◌&&◌, ◌||◌, ◌==◌, Option,
  none, some, List, [], ◌∷◌, ◌++◌, arith, mem, is_empty, Bool-cases, inl, inr, All,
}
use dotdevops.Plan.Schema.{Target, Node}
use dotdevops.Controller.Compare.{value_at}
use dotdevops.Plan.Validate as Ir
use dotdevops.Plan.Validate.{
  target_without_id, target_without_address, node_without_id, node_without_type,
  node_without_targets, unknown_target, unknown_depends_on, unknown_when, invalid_policy,
  cmd_required, cwd_not_string, missing_version, no_targets, no_nodes, target_problems, unknown,
  when_nodes, is_command, is_string_if_there, input_problems, node_problems, all_node_problems,
  target_ids_of, validate,
}
use dotdevops.Devlang.Decl.{Decl, node_decl}
use dotdevops.Devlang.Validate.Tables.{target_names, node_names}
use dotdevops.Devlang.Validate.Versions.{primitive_types}

-- The type of a node is no primitive of version 0.4: it is a step.
abbrev pub is_custom : Option String → Bool
is_custom none = false
is_custom (some t) = not (mem t primitive_types)

-- The file has a node of the name whose type is a step.
abbrev pub custom_node : List Decl → String → Bool
custom_node [] x = false
custom_node (node_decl n ∷ ds) x = (n.name == x && is_custom n.type) || custom_node ds x
custom_node (d ∷ ds) x = custom_node ds x

-- The version of the plan, its references, types and failure policies are always right; the
-- inputs of process.exec can be wrong in the instance of a step only.
abbrev pub IsLeft : List Decl → Ir.Problem → Type 0
IsLeft ds no_targets = Unit
IsLeft ds no_nodes = Unit
IsLeft ds (target_without_id i) = Unit
IsLeft ds (target_without_address i) = Unit
IsLeft ds (node_without_id i) = Unit
IsLeft ds (node_without_targets i x) = Unit
IsLeft ds (cmd_required i x) = custom_node ds x ≡ true
IsLeft ds (cwd_not_string i x) = custom_node ds x ≡ true
IsLeft ds _ = ⊥

module _ {ℓ} {A : Type ℓ} (P : A → Type 0) where
  pub All-append : (xs ys : List A) → All P xs → All P ys → All P (xs ++ ys)
  All-append [] ys h k = k
  All-append (x ∷ xs) ys h k = (h.0, All-append xs ys h.1 k)

pub All-report :
    (P : Ir.Problem → Type 0) (b : Bool) (p : Ir.Problem) → (b ≡ true → P p) → All P (Ir.report b p)
All-report P true p h = (h refl, tt)
All-report P false p h = tt

unknown-nil :
    (known : List String) (problem : String → Ir.Problem) (xs : List String)
    → All (λ x. mem x known ≡ true) xs
    → unknown known problem xs ≡ []
unfolding unknown
unknown-nil known problem [] h = refl
unknown-nil known problem (x ∷ xs) h = rw (h.0) (unknown-nil known problem xs h.1)

-- What is right of a node of the plan, and when its inputs are.
pub record IsFine (ds : List Decl) (q : Node) : Type 0 where
  pub type : (q.type == "") ≡ false
  pub targets : All (λ t. mem t (target_names ds) ≡ true) q.targets
  pub depends_on : All (λ d. mem d (node_names ds) ≡ true) q.depends_on
  pub when : q.when ≡ none
  pub policy : Ir.known_policy q.failure_policy ≡ true
  pub inputs :
      (custom_node ds q.id ≡ true)
      ⊎ ((q.type == "process.exec") ≡ true
          → (is_command (value_at "cmd" q.inputs) ≡ true)
            × (is_string_if_there (value_at "cwd" q.inputs) ≡ true))

module _ (ds : List Decl) where
  inputs-IsLeft : (i : ℕ) (q : Node) → IsFine ds q → All (IsLeft ds) (input_problems i q)
  unfolding input_problems
  inputs-IsLeft i q fine = elim (Bool-cases (q.type == "process.exec")) [
    | inr e ↦ rw (e, input_problems) tt
    | inl e ↦
        let cmd = Ir.report (not (is_command (value_at "cmd" q.inputs))) (cmd_required i q.id) in
        let cwd =
          Ir.report (not (is_string_if_there (value_at "cwd" q.inputs))) (cwd_not_string i q.id) in
        let both : All (IsLeft ds) (cmd ++ cwd) = elim fine.inputs [
          | inl c ↦
              All-append (IsLeft ds) cmd cwd (All-report (IsLeft ds) _ _ (λ b. c))
                (All-report (IsLeft ds) _ _ (λ b. c))
          | inr right ↦
              let (a, s) = right e in
              All-append (IsLeft ds) cmd cwd
                (All-report (IsLeft ds) _ _ (λ b. absurd (ground arith)))
                (All-report (IsLeft ds) _ _ (λ b. absurd (ground arith)))
        ] in
        rw (e, input_problems) both
  ]

  node-IsLeft :
      (i : ℕ) (q : Node)
      → IsFine ds q
      → All (IsLeft ds) (node_problems (target_names ds) (node_names ds) i q)
  unfolding node_problems
  node-IsLeft i q fine =
      let targets = unknown-nil (target_names ds) (unknown_target i q.id) q.targets fine.targets in
      let deps =
        unknown-nil (node_names ds) (unknown_depends_on i q.id) q.depends_on fine.depends_on in
      let no_when : unknown (node_names ds) (unknown_when i q.id) (when_nodes q.when) ≡ [] =
        unknown-nil (node_names ds) (unknown_when i q.id) (when_nodes q.when) (
          subst (λ w. All (λ d. mem d (node_names ds) ≡ true) (when_nodes w)) (sym fine.when) tt) in
      let P = IsLeft ds in
      let c1 =
        All-append P _ _ (All-report P (q.id == "") (node_without_id i) (λ b. tt))
          (All-report P (q.type == "") (node_without_type i) (λ b. cc (fine.type))) in
      let c2 =
        All-append P _ _ c1
          (All-report P (is_empty q.targets) (node_without_targets i q.id) (λ b. tt)) in
      let c3 = All-append P _ _ c2 (subst (All P) (sym targets) tt) in
      let c4 = All-append P _ _ c3 (subst (All P) (sym deps) tt) in
      let c5 = All-append P _ _ c4 (subst (All P) (sym no_when) tt) in
      let c6 = All-append P _ _ c5 (
        All-report P (not (Ir.known_policy q.failure_policy))
          (invalid_policy i q.id q.failure_policy) (λ b. ground (arith, fine.policy))) in
      All-append P _ _ c6 (inputs-IsLeft i q fine)

  pub nodes-IsLeft :
      (i : ℕ) (qs : List Node)
      → All (IsFine ds) qs
      → All (IsLeft ds) (all_node_problems (target_names ds) (node_names ds) i qs)
  unfolding all_node_problems
  nodes-IsLeft i [] all = tt
  nodes-IsLeft i (q ∷ qs) all =
      All-append (IsLeft ds) _ _ (node-IsLeft i q all.0) (nodes-IsLeft (suc i) qs all.1)

  pub targets-IsLeft : (i : ℕ) (ts : List Target) → All (IsLeft ds) (target_problems i ts)
  unfolding target_problems
  targets-IsLeft i [] = tt
  targets-IsLeft i (t ∷ ts) =
      let P = IsLeft ds in
      All-append P _ _
        (All-append P _ _ (All-report P (t.id == "") (target_without_id i) (λ b. tt))
          (All-report P (t.address == "") (target_without_address i) (λ b. tt)))
        (targets-IsLeft (suc i) ts)
