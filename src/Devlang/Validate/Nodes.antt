-- ===== src/Devlang/Validate/Nodes.antt =====
-- What the checks of version 0.4 say of one node that they find no error in.
use dotdevops.Prelude.{
  ℕ, zero, suc, String, ◌≡◌, refl, subst, Bool, true, false, not, ◌&&◌, ◌||◌, Option, none, some,
  List, [], ◌∷◌, ◌++◌, arith, mem, get?, has, Bool-cases, Option-cases, inl, inr, All, All-map,
  if◌then◌else◌,
}
use dotdevops.Json.{Value, slice}
use dotdevops.Plan.Validate.{is_command, is_string_if_there}
use dotdevops.Devlang.Ast.{Expr, LetEnv, ident, str, list, nil, cons}
use dotdevops.Devlang.Comp.{ok, ok_inj, bind-eq-ok}
use dotdevops.Devlang.Decl.{NodeDecl, Decl}
use dotdevops.Devlang.Validate.{
  Problem, unknown_target, unknown_depends_on, invalid_policy, report, each, Steps, symbols,
  resolve_let, resolve_inputs, all_string_lits, command, string_if_there, input_problems,
  policy_problems, target_problems, reference_problems,
}
use dotdevops.Devlang.Validate.Tables.{
  append-nil, All-each, target_names, node_names, symbols-targets, symbols-nodes,
}
use dotdevops.Devlang.Validate.Accepted.{HasPolicy, policy-known}
use dotdevops.Devlang.Validate.Versions.{primitive_types, check_typed, check_node}
use dotdevops.Devlang.Lower.{lower_expr, lower_elems}

report-nil : (b : Bool) (p : Problem) → report b p ≡ [] → b ≡ false
report-nil true p h = cc
report-nil false p h = refl

target-known :
    (lets : LetEnv) (ds : List Decl) (t : String)
    → target_problems lets (symbols ds).targets t ≡ []
    → mem t (target_names ds) ≡ true
target-known lets ds t h = elim (Bool-cases (has t lets)) [
  | inl e ↦ absurd (cc (rw e at h))
  | inr e ↦ ground (arith, symbols-targets ds t, report-nil _ (unknown_target t) (rw e at h))
]

pub record IsChecked (lets : LetEnv) (steps : Steps) (ds : List Decl) (n : NodeDecl) : Type 0 where
  pub type :
      (t : String) × (n.type ≡ some t)
      × ((has t steps || mem t primitive_types) ≡ true)
      × (mem t primitive_types ≡ true → input_problems t (resolve_inputs lets n.inputs) ≡ [])
  pub targets : All (λ t. mem t (target_names ds) ≡ true) n.targets
  pub depends_on : All (λ d. mem d (node_names ds) ≡ true) n.depends_on
  pub policy : HasPolicy n.failure_policy

pub check_node-IsChecked :
    (lets : LetEnv) (steps : Steps) (ds : List Decl) (n : NodeDecl)
    → check_node lets steps (symbols ds) n ≡ []
    → IsChecked lets steps ds n
unfolding check_node check_typed reference_problems
check_node-IsChecked lets steps ds n h =
    let s = symbols ds in
    let at =
      λ (o : Option String) (e : n.type ≡ o). subst (λ q. check_typed lets steps s n q ≡ []) e h in
    elim (Option-cases n.type) [
      | inl e ↦ absurd (cc (at none e))
      | inr (t, e) ↦ elim (Bool-cases (has t steps || mem t primitive_types)) [
        | inr unknown ↦
            let b : (not (has t steps) && not (mem t primitive_types)) ≡ true = ground arith in
            absurd (cc (rw b at (at (some t) e)))
        | inl known ↦
            let b : (not (has t steps) && not (mem t primitive_types)) ≡ false = ground arith in
            let inputs : List Problem =
              if mem t primitive_types
              then input_problems t (resolve_inputs lets n.inputs)
              else [] in
            let policies = policy_problems invalid_policy n.failure_policy in
            let all : reference_problems lets s n ++ policies ++ inputs ≡ [] =
              rw b at (at (some t) e) in
            let (r1, no_inputs) = append-nil (reference_problems lets s n ++ policies) inputs all in
            let (r2, no_policies) = append-nil (reference_problems lets s n) policies r1 in
            let (targets, deps) =
              append-nil (each (target_problems lets s.targets) n.targets) _ r2 in
            record {
              type = (t, e, known, λ prim. rw prim at no_inputs);
              targets = All-map n.targets (target-known lets ds) (All-each _ n.targets targets);
              depends_on =
                  All-map n.depends_on
                    (λ d none_found.
                      ground
                        (arith, symbols-nodes ds d, report-nil _ (unknown_depends_on d) none_found))
                    (All-each _ n.depends_on deps);
              policy = policy-known invalid_policy n.failure_policy no_policies;
            }
      ]
    ]

abbrev pub resolved : LetEnv → Option Expr → Option Expr
resolved lets none = none
resolved lets (some e) = some (resolve_let lets e)

get?-resolve :
    (lets : LetEnv) (k : String) (m : List (String × Expr))
    → get? k (resolve_inputs lets m) ≡ resolved lets (get? k m)
unfolding resolve_inputs
get?-resolve lets k [] = refl
get?-resolve lets k ((j, e) ∷ m) = ground (arith, get?-resolve lets k m)

-- What the checks of process.exec say of the inputs.
pub process_inputs :
    (lets : LetEnv) (m : List (String × Expr))
    → input_problems "process.exec" (resolve_inputs lets m) ≡ []
    → (command (resolved lets (get? "cmd" m)) ≡ [])
      × (string_if_there "process.exec" "cwd" (resolved lets (get? "cwd" m)) ≡ [])
unfolding input_problems
process_inputs lets m h =
    let (cmd, cwd) = append-nil (command (get? "cmd" (resolve_inputs lets m))) _ h in
    (
      subst (λ o. command o ≡ []) (get?-resolve lets "cmd" m) cmd,
      subst (λ o. string_if_there "process.exec" "cwd" o ≡ []) (get?-resolve lets "cwd" m) cwd,
    )

resolve-unbound :
    (lets : LetEnv) (x : String) → get? x lets ≡ none → resolve_let lets (ident x) ≡ ident x
unfolding resolve_let
resolve-unbound lets x e = rw (e, resolve_let) refl

resolve-bound :
    (lets : LetEnv) (x : String) {c : Expr} → get? x lets ≡ some c → resolve_let lets (ident x) ≡ c
unfolding resolve_let
resolve-bound lets x e = rw (e, resolve_let) refl

module _ (format : Value → String) (lets : LetEnv) where
  list_command :
      (fuel : ℕ) (c : Expr) {v : Value}
      → command (some c) ≡ []
      → lower_expr format fuel lets c ≡ ok v
      → is_command (some v) ≡ true
  unfolding lower_expr lower_elems command all_string_lits
  list_command zero c h low = cc
  list_command (suc fuel) (list nil) h low = cc
  list_command (suc fuel) (list (cons e es)) h low =
      let (vs, elems, same) =
        bind-eq-ok (lower_elems (lower_expr format fuel lets) (cons e es)) _ low in
      let (w, first, h1) = bind-eq-ok (lower_expr format fuel lets e) _ elems in
      let (ws, rest, h2) = bind-eq-ok (lower_elems (lower_expr format fuel lets) es) _ h1 in
      subst (λ u. is_command (some u) ≡ true) (ok_inj same)
        (subst (λ l. is_command (some (slice l)) ≡ true) (ok_inj h2) refl)
  list_command (suc fuel) c h low = cc

  -- A command that passes the checks is lowered to a list that is not empty.
  pub command-is_command :
      (fuel : ℕ) (d : Expr) {v : Value}
      → command (some (resolve_let lets d)) ≡ []
      → lower_expr format fuel lets d ≡ ok v
      → is_command (some v) ≡ true
  unfolding lower_expr resolve_let command
  command-is_command zero d h low = cc
  command-is_command (suc fuel) (ident x) h low = elim (Option-cases (get? x lets)) [
    | inl e ↦ absurd (cc (subst (λ c. command (some c) ≡ []) (resolve-unbound lets x e) h))
    | inr (c, e) ↦
        list_command fuel c (subst (λ c. command (some c) ≡ []) (resolve-bound lets x e) h)
          (rw (e, lower_expr) at low)
  ]
  command-is_command (suc fuel) d h low = list_command (suc fuel) d h low

  text_is_string :
      (fuel : ℕ) (c : Expr) {v : Value}
      → string_if_there "process.exec" "cwd" (some c) ≡ []
      → lower_expr format fuel lets c ≡ ok v
      → is_string_if_there (some v) ≡ true
  unfolding lower_expr
  text_is_string zero c h low = cc
  text_is_string (suc fuel) (str s) h low =
      subst (λ u. is_string_if_there (some u) ≡ true) (ok_inj low) refl
  text_is_string (suc fuel) c h low = cc

  pub cwd-is_string :
      (fuel : ℕ) (d : Expr) {v : Value}
      → string_if_there "process.exec" "cwd" (some (resolve_let lets d)) ≡ []
      → lower_expr format fuel lets d ≡ ok v
      → is_string_if_there (some v) ≡ true
  unfolding lower_expr resolve_let
  cwd-is_string zero d h low = cc
  cwd-is_string (suc fuel) (ident x) h low = elim (Option-cases (get? x lets)) [
    | inl e ↦ absurd (
        cc (
          subst (λ c. string_if_there "process.exec" "cwd" (some c) ≡ []) (resolve-unbound lets x e)
            h))
    | inr (c, e) ↦
        text_is_string fuel c
          (subst (λ c. string_if_there "process.exec" "cwd" (some c) ≡ []) (resolve-bound lets x e)
            h)
          (rw (e, lower_expr) at low)
  ]
  cwd-is_string (suc fuel) d h low = text_is_string (suc fuel) d h low
