-- ===== src/Plan/Validate/Valid.antt =====
-- The plans that Validate accepts.
use dotdevops.Prelude.{
  ℕ, suc, String, ◌≡◌, ◌↔◌, refl, ap, inl, inr, Bool, true, false, not, ◌==◌, List, [], ◌∷◌, ◌++◌,
  arith, mem, is_empty, All, Bool-cases,
}
use dotdevops.Plan.Schema.{Target, Node, Plan, ids}
use dotdevops.Controller.Compare.{value_at}
use dotdevops.Plan.Validate.{
  Problem, target_without_id, target_without_address, node_without_id, node_without_type,
  node_without_targets, unknown_target, unknown_depends_on, unknown_when, invalid_policy,
  cmd_required, cwd_not_string, missing_version, no_targets, no_nodes, report, target_problems,
  unknown, when_nodes, known_policy, is_command, is_string_if_there, input_problems, node_problems,
  all_node_problems, target_ids_of, validate,
}

-- A node that refers to known targets and nodes only and has what its type asks for.
pub record IsSound (target_ids node_ids : List String) (n : Node) : Type 0 where
  pub id : (n.id == "") ≡ false
  pub type : (n.type == "") ≡ false
  pub some_target : is_empty n.targets ≡ false
  pub targets : All (λ t. mem t target_ids ≡ true) n.targets
  pub depends_on : All (λ d. mem d node_ids ≡ true) n.depends_on
  pub when : All (λ d. mem d node_ids ≡ true) (when_nodes n.when)
  pub policy : known_policy n.failure_policy ≡ true
  pub cmd : (n.type == "process.exec") ≡ true → is_command (value_at "cmd" n.inputs) ≡ true
  pub cwd : (n.type == "process.exec") ≡ true → is_string_if_there (value_at "cwd" n.inputs) ≡ true

pub record IsValid (p : Plan) : Type 0 where
  pub version : (p.version == "") ≡ false
  pub some_target : is_empty p.targets ≡ false
  pub some_node : is_empty p.nodes ≡ false
  pub targets : All (λ t. ((t.id == "") ≡ false) × ((t.address == "") ≡ false)) p.targets
  pub nodes : All (IsSound (target_ids_of p) (ids p.nodes)) p.nodes

append-nil_iff : (xs ys : List Problem) → (xs ++ ys ≡ []) ↔ ((xs ≡ []) × (ys ≡ []))
append-nil_iff [] ys = ((λ e. (refl, e)), λ e. e.1)
append-nil_iff (x ∷ xs) ys = ((λ e. cc), λ e. cc (e.0))

report-nil_iff : (b : Bool) (e : Problem) → (report b e ≡ []) ↔ (b ≡ false)
report-nil_iff true e = ((λ h. cc), λ h. cc)
report-nil_iff false e = ((λ h. refl), λ h. refl)

append-report-nil_iff :
    (xs : List Problem) (b : Bool) (e : Problem)
    → (xs ++ report b e ≡ []) ↔ ((xs ≡ []) × (b ≡ false))
append-report-nil_iff xs b e =
    let both = append-nil_iff xs (report b e) in
    let last = report-nil_iff b e in
    ((λ h. ((both.0 h).0, last.0 (both.0 h).1)), λ h. both.1 (h.0, last.1 h.1))

target_problems-nil_iff :
    (i : ℕ) (ts : List Target)
    → (target_problems i ts ≡ [])
      ↔ All (λ t. ((t.id == "") ≡ false) × ((t.address == "") ≡ false)) ts
unfolding target_problems
target_problems-nil_iff i [] = ((λ h. tt), λ h. refl)
target_problems-nil_iff i (t ∷ ts) =
    let id = report-nil_iff (t.id == "") (target_without_id i) in
    let own =
      append-report-nil_iff (report (t.id == "") (target_without_id i)) (t.address == "")
        (target_without_address i) in
    let rest = target_problems-nil_iff (suc i) ts in
    let all = append-nil_iff _ (target_problems (suc i) ts) in
    (
      (λ h. ((id.0 (own.0 (all.0 h).0).0, (own.0 (all.0 h).0).1), rest.0 (all.0 h).1)),
      λ v. all.1 (own.1 (id.1 v.0.0, v.0.1), rest.1 v.1),
    )

unknown-nil_iff :
    (known : List String) (problem : String → Problem) (xs : List String)
    → (unknown known problem xs ≡ []) ↔ All (λ x. mem x known ≡ true) xs
unfolding unknown
unknown-nil_iff known problem [] = ((λ h. tt), λ h. refl)
unknown-nil_iff known problem (x ∷ xs) =
    let all = append-nil_iff (report (not (mem x known)) (problem x)) (unknown known problem xs) in
    let first = report-nil_iff (not (mem x known)) (problem x) in
    let rest = unknown-nil_iff known problem xs in
    (
      (λ h. (ground (arith, first.0 (all.0 h).0), rest.0 (all.0 h).1)),
      λ v. all.1 (first.1 (ap not v.0), rest.1 v.1),
    )

input_problems-nil_iff :
    (i : ℕ) (n : Node)
    → (input_problems i n ≡ []) ↔ (
        ((n.type == "process.exec") ≡ true → is_command (value_at "cmd" n.inputs) ≡ true)
        × ((n.type == "process.exec") ≡ true → is_string_if_there (value_at "cwd" n.inputs) ≡ true))
unfolding input_problems
input_problems-nil_iff i n =
    let cmd = report-nil_iff (not (is_command (value_at "cmd" n.inputs))) (cmd_required i n.id) in
    let both =
      append-report-nil_iff
        (report (not (is_command (value_at "cmd" n.inputs))) (cmd_required i n.id))
        (not (is_string_if_there (value_at "cwd" n.inputs))) (cwd_not_string i n.id) in
    elim (Bool-cases (n.type == "process.exec")) [
      | inl exec ↦
          rw (exec, input_problems)
            (
              (λ h. ((λ e. ground (arith, cmd.0 (both.0 h).0)), λ e. ground (arith, (both.0 h).1))),
              λ v. both.1 (cmd.1 (ap not (v.0 refl)), ap not (v.1 refl)),
            )
      | inr other ↦ rw (other, input_problems) ((λ h. ((λ e. cc), λ e. cc)), λ v. refl)
    ]

module _ (target_ids node_ids : List String) where
  node_problems-nil_iff :
      (i : ℕ) (n : Node)
      → (node_problems target_ids node_ids i n ≡ []) ↔ IsSound target_ids node_ids n
  unfolding node_problems
  node_problems-nil_iff i n =
      let targets = unknown-nil_iff target_ids (unknown_target i n.id) n.targets in
      let deps = unknown-nil_iff node_ids (unknown_depends_on i n.id) n.depends_on in
      let when = unknown-nil_iff node_ids (unknown_when i n.id) (when_nodes n.when) in
      let inputs = input_problems-nil_iff i n in
      (
        (λ h.
            let (r7, h7) = (append-nil_iff _ (input_problems i n)).0 h in
            let (r6, h6) =
              (append-report-nil_iff _ (not (known_policy n.failure_policy))
                  (invalid_policy i n.id n.failure_policy)).0
                r7 in
            let (r5, h5) =
              (append-nil_iff _ (unknown node_ids (unknown_when i n.id) (when_nodes n.when))).0
                r6 in
            let (r4, h4) =
              (append-nil_iff _ (unknown node_ids (unknown_depends_on i n.id) n.depends_on)).0 r5 in
            let (r3, h3) =
              (append-nil_iff _ (unknown target_ids (unknown_target i n.id) n.targets)).0 r4 in
            let (r2, h2) =
              (append-report-nil_iff _ (is_empty n.targets) (node_without_targets i n.id)).0 r3 in
            let (r1, h1) = (append-report-nil_iff _ (n.type == "") (node_without_type i)).0 r2 in
            record {
              id = (report-nil_iff (n.id == "") (node_without_id i)).0 r1;
              type = h1;
              some_target = h2;
              targets = targets.0 h3;
              depends_on = deps.0 h4;
              when = when.0 h5;
              policy = ground (arith, h6);
              cmd = (inputs.0 h7).0;
              cwd = (inputs.0 h7).1;
            }),
        λ s.
            let r1 = (report-nil_iff (n.id == "") (node_without_id i)).1 s.id in
            let r2 =
              (append-report-nil_iff _ (n.type == "") (node_without_type i)).1 (r1, s.type) in
            let r3 =
              (append-report-nil_iff _ (is_empty n.targets) (node_without_targets i n.id)).1
                (r2, s.some_target) in
            let r4 = (append-nil_iff _ _).1 (r3, targets.1 s.targets) in
            let r5 = (append-nil_iff _ _).1 (r4, deps.1 s.depends_on) in
            let r6 = (append-nil_iff _ _).1 (r5, when.1 s.when) in
            let r7 =
              (append-report-nil_iff _ (not (known_policy n.failure_policy))
                  (invalid_policy i n.id n.failure_policy)).1
                (r6, ap not s.policy) in
            (append-nil_iff _ _).1 (r7, inputs.1 (s.cmd, s.cwd)),
      )

  all_node_problems-nil_iff :
      (i : ℕ) (ns : List Node)
      → (all_node_problems target_ids node_ids i ns ≡ []) ↔ All (IsSound target_ids node_ids) ns
  unfolding all_node_problems
  all_node_problems-nil_iff i [] = ((λ h. tt), λ h. refl)
  all_node_problems-nil_iff i (n ∷ ns) =
      let first = node_problems-nil_iff i n in
      let rest = all_node_problems-nil_iff (suc i) ns in
      let both =
        append-nil_iff (node_problems target_ids node_ids i n)
          (all_node_problems target_ids node_ids (suc i) ns) in
      (
        (λ h. (first.0 (both.0 h).0, rest.0 (both.0 h).1)),
        λ all. both.1 (first.1 all.0, rest.1 all.1),
      )

-- Validate reports no problem exactly for the valid plans.
pub validate-IsValid_iff : (p : Plan) → (validate p ≡ []) ↔ IsValid p
unfolding validate
validate-IsValid_iff p =
    let targets = target_problems-nil_iff 0 p.targets in
    let nodes = all_node_problems-nil_iff (target_ids_of p) (ids p.nodes) 0 p.nodes in
    (
      (λ h.
          let (r4, h4) =
            (append-nil_iff _ (all_node_problems (target_ids_of p) (ids p.nodes) 0 p.nodes)).0 h in
          let (r3, h3) = (append-nil_iff _ (target_problems 0 p.targets)).0 r4 in
          let (r2, h2) = (append-report-nil_iff _ (is_empty p.nodes) no_nodes).0 r3 in
          let (r1, h1) = (append-report-nil_iff _ (is_empty p.targets) no_targets).0 r2 in
          record {
            version = (report-nil_iff (p.version == "") missing_version).0 r1;
            some_target = h1;
            some_node = h2;
            targets = targets.0 h3;
            nodes = nodes.0 h4;
          }),
      λ v.
          let r1 = (report-nil_iff (p.version == "") missing_version).1 v.version in
          let r2 =
            (append-report-nil_iff _ (is_empty p.targets) no_targets).1 (r1, v.some_target) in
          let r3 = (append-report-nil_iff _ (is_empty p.nodes) no_nodes).1 (r2, v.some_node) in
          (append-nil_iff _ _).1
            ((append-nil_iff _ _).1 (r3, targets.1 v.targets), nodes.1 v.nodes),
    )
