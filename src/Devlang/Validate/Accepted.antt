-- ===== src/Devlang/Validate/Accepted.antt =====
-- What ValidateV0_4 has checked of the steps and the nodes of a file that it accepts.
use dotdevops.Prelude.{
  ℕ, String, ◌≡◌, refl, ◌∙◌, true, false, not, ◌==◌, Option, none, some, List, [], ◌∷◌, ◌++◌, arith,
  mem, is_empty, get?, has, Bool-cases, Option-cases, inl, inr, eq_iff, All, subst,
}
use dotdevops.Devlang.Ast.{LetEnv}
use dotdevops.Devlang.Comp.{ok, ok_inj, bind-eq-ok}
use dotdevops.Devlang.Decl.{NodeDecl, StepDecl, Decl, node_decl, step_decl}
use dotdevops.Devlang.Validate.{
  Problem, duplicate_step, step_named_as_primitive, step_with_targets, step_with_targets,
  step_with_depends_on, invalid_step_policy, report, each, settle, keys, pick, fold, Steps, symbols,
  known_policy, policy_problems, collect_lets,
}
use dotdevops.Devlang.Validate.Tables.{
  append-nil, settle-ok, All-each, mem-keys-of_get?, All-pick, AllNodes, symbols-found,
}
use dotdevops.Devlang.Validate.Versions.{
  primitive_types, refused_v0_4, step_type_problem, check_step, add_step, check_node, validate_v0_4,
}

-- A failure policy that is there is one of the three.
abbrev pub HasPolicy : Option String → Type 0
HasPolicy none = Unit
HasPolicy (some p) = known_policy p ≡ true

-- The body of a step has a primitive as its type, and a known policy.
pub record IsSoundStep (s : StepDecl) : Type 0 where
  pub type : (t : String) × (s.body.type ≡ some t) × (mem t primitive_types ≡ true)
  pub policy : HasPolicy s.body.failure_policy

pub policy-known :
    (problem : String → Problem) (p : Option String) → policy_problems problem p ≡ [] → HasPolicy p
policy-known problem none h = tt
policy-known problem (some p) h = elim (Bool-cases (known_policy p)) [
  | inl e ↦ e
  | inr e ↦ absurd (cc (rw e at h))
]

step_type_sound :
    (steps : Steps) (x : String) (type : Option String)
    → step_type_problem steps x type ≡ none
    → (t : String) × (type ≡ some t) × (mem t primitive_types ≡ true)
unfolding step_type_problem
step_type_sound steps x none h = cc
step_type_sound steps x (some t) h = elim (Bool-cases (mem t primitive_types)) [
  | inl e ↦ (t, refl, e)
  | inr e ↦ absurd (cc (rw e at h))
]

All-append {ℓ} :
    {A : Type ℓ} (P : A → Type 0) (xs ys : List A) → All P xs → All P ys → All P (xs ++ ys)
All-append P [] ys h k = k
All-append P (x ∷ xs) ys h k = (h.0, All-append P xs ys h.1 k)

abbrev SoundEntry : String × StepDecl → Type 0
SoundEntry (x, s) = (mem x primitive_types ≡ false) × IsSoundStep s

no_last : (ps : List Problem) (p : Problem) → ps ++ p ∷ [] ≡ [] → ⊥
no_last ps p h = cc ((append-nil ps (p ∷ []) h).1)

-- the errors before the type of a step's body is looked at
abbrev shape_problems : List Problem → StepDecl → List Problem
shape_problems errs s =
    errs
    ++ report (not (is_empty s.body.targets)) (step_with_targets s.name)
    ++ report (not (is_empty s.body.depends_on)) (step_with_depends_on s.name)

check_step_sound :
    (steps : Steps) (errs : List Problem) (s : StepDecl)
    → (check_step (steps, errs) s).1 ≡ []
    → (errs ≡ []) × (All SoundEntry steps → All SoundEntry (check_step (steps, errs) s).0)
unfolding check_step
check_step_sound steps errs s h = elim (Bool-cases (has s.name steps)) [
  | inl dup ↦ absurd (no_last errs (duplicate_step s.name) (rw dup at h))
  | inr new ↦ elim (Bool-cases (mem s.name primitive_types)) [
    | inl prim ↦ absurd (no_last errs (step_named_as_primitive s.name) (rw (new, prim) at h))
    | inr own ↦ elim (Option-cases (step_type_problem steps s.name s.body.type)) [
      | inr (p, e) ↦ absurd (no_last (shape_problems errs s) p (rw (new, own, e) at h))
      | inl e ↦
          let policies = policy_problems (invalid_step_policy s.name) s.body.failure_policy in
          let clean : shape_problems errs s ++ policies ≡ [] = rw (new, own, e) at h in
          let (found, policy) = append-nil (shape_problems errs s) policies clean in
          let (before, shape) = append-nil _ _ (append-nil _ _ found).0 in
          let sound : IsSoundStep s = record {
            type = step_type_sound steps s.name s.body.type e;
            policy = policy-known (invalid_step_policy s.name) s.body.failure_policy policy;
          } in
          rw (new, own, e)
            (before, λ old. All-append SoundEntry steps ((s.name, s) ∷ []) old ((own, sound), tt))
    ]
  ]
]

fold-no_errs :
    (ds : List Decl) (acc : Steps × List Problem) → (fold add_step acc ds).1 ≡ [] → acc.1 ≡ []
unfolding add_step
fold-no_errs [] acc h = h
fold-no_errs (step_decl s ∷ ds) acc h =
    (check_step_sound acc.0 acc.1 s (fold-no_errs ds (check_step acc s) h)).0
fold-no_errs (d ∷ ds) acc h = fold-no_errs ds acc h

fold_sound :
    (ds : List Decl) (acc : Steps × List Problem)
    → (fold add_step acc ds).1 ≡ []
    → All SoundEntry acc.0
    → All SoundEntry (fold add_step acc ds).0
unfolding add_step
fold_sound [] acc h old = old
fold_sound (step_decl s ∷ ds) acc h old =
    fold_sound ds (check_step acc s) h
      ((check_step_sound acc.0 acc.1 s (fold-no_errs ds (check_step acc s) h)).1 old)
fold_sound (d ∷ ds) acc h old = fold_sound ds acc h old

sound-of_get? :
    (x : String) (steps : Steps) {s : StepDecl}
    → All SoundEntry steps
    → get? x steps ≡ some s
    → (mem x primitive_types ≡ false) × IsSoundStep s
sound-of_get? x [] all h = cc
sound-of_get? x ((y, r) ∷ steps) {s} all h = elim (Bool-cases (y == x)) [
  | inl e ↦
      let same : r ≡ s = ground arith in
      (
        subst (λ z. mem z primitive_types ≡ false) ((eq_iff y x).0 e) all.0.0,
        subst IsSoundStep same all.0.1,
      )
  | inr e ↦ sound-of_get? x steps all.1 (ground arith)
]

pub record Accepted (lets : LetEnv) (steps : Steps) (ds : List Decl) : Type 0 where
  pub sound_steps :
      (x : String) (s : StepDecl)
      → get? x steps ≡ some s
      → (mem x primitive_types ≡ false) × IsSoundStep s
  pub nodes : AllNodes (λ n. check_node lets steps (symbols ds) n ≡ []) ds

pub AllNodes-map :
    (P Q : NodeDecl → Type 0) (ds : List Decl)
    → ((n : NodeDecl) → P n → Q n)
    → AllNodes P ds
    → AllNodes Q ds
AllNodes-map P Q [] f h = tt
AllNodes-map P Q (node_decl n ∷ ds) f h = (f n h.0, AllNodes-map P Q ds f h.1)
AllNodes-map P Q (d ∷ ds) f h = AllNodes-map P Q ds f h

pub AllNodes-both :
    (P Q : NodeDecl → Type 0) (ds : List Decl)
    → AllNodes P ds
    → AllNodes Q ds
    → AllNodes (λ n. P n × Q n) ds
AllNodes-both P Q [] h k = tt
AllNodes-both P Q (node_decl n ∷ ds) h k = ((h.0, k.0), AllNodes-both P Q ds h.1 k.1)
AllNodes-both P Q (d ∷ ds) h k = AllNodes-both P Q ds h k

-- A range loop visits the keys of a map and no others.
abbrev pub Visits : (List String → List String) → Type 0
Visits visit = (ks : List String) (x : String) → mem x (visit ks) ≡ mem x ks

pub validate_v0_4-Accepted :
    (fuel : ℕ) (visit : List String → List String) (ds : List Decl) {lets : LetEnv} {steps : Steps}
    → Visits visit
    → validate_v0_4 fuel visit ds ≡ ok (lets, steps)
    → Accepted lets steps ds × (collect_lets fuel visit ds ≡ ok lets)
unfolding validate_v0_4
validate_v0_4-Accepted fuel visit ds {lets} {steps} visits h =
    let (u, supported, h1) = bind-eq-ok (settle (each refused_v0_4 ds)) _ h in
    let (own, collected, h2) = bind-eq-ok (collect_lets fuel visit ds) _ h1 in
    let table = fold add_step ([], []) ds in
    let (u2, no_step_errs, h3) = bind-eq-ok (settle table.1) _ h2 in
    let s = symbols ds in
    let check = λ (e : String × NodeDecl). check_node own table.0 s e.1 in
    let visited = pick s.nodes (visit (keys s.nodes)) in
    let (u3, no_errs, h4) = bind-eq-ok (settle (s.errs ++ each check visited)) _ h3 in
    let (unique, checked) = append-nil s.errs _ (settle-ok _ no_errs) in
    let all = All-each check visited checked in
    let same = ok_inj h4 in
    subst (λ (r : LetEnv × Steps). Accepted r.0 r.1 ds × (collect_lets fuel visit ds ≡ ok r.0)) same
      (
        record {
          sound_steps = λ x st found.
              sound-of_get? x table.0 (fold_sound ds ([], []) (settle-ok table.1 no_step_errs) tt)
                found;
          nodes =
              AllNodes-map _ _ ds
                (λ n found.
                  All-pick (λ e. check e ≡ []) s.nodes (visit (keys s.nodes)) n.name all
                    (visits (keys s.nodes) n.name ∙ mem-keys-of_get? n.name s.nodes found) found)
                (symbols-found ds unique);
        },
        collected,
      )
