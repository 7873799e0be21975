-- ===== src/Devlang/Loops/Sound.antt =====
-- What version 0.5 compiles a file to.
use dotdevops.Prelude.{ℕ, String, ◌≡◌, refl, ap, subst, List, [], ◌∷◌, ◌++◌, map}
use dotdevops.Json.{Value}
use dotdevops.Plan.Schema.{Plan, ids}
use dotdevops.Plan.Validate as Ir
use dotdevops.Plan.Validate.{validate}
use dotdevops.Plan.Validate.Valid.{IsValid, validate-IsValid_iff}
use dotdevops.Devlang.Ast.{LetEnv}
use dotdevops.Devlang.Comp.{ok, ok_inj, bind-eq-ok}
use dotdevops.Devlang.Decl.{Decl}
use dotdevops.Devlang.Validate.{Steps, settle, each, fold, symbols, pick, keys, collect_lets}
use dotdevops.Devlang.Validate.Tables.{target_names, node_names}
use dotdevops.Devlang.Compile.{lift}
use dotdevops.Devlang.Unroll.{ForDecl, for_loops, lower_v0_5}
use dotdevops.Devlang.Unroll.Names.{loop_names, lift-eq-ok, lower_v0_5-names}
use dotdevops.Devlang.Loops.Generated.{rounds, IsNamed, loops-IsNamed}
use dotdevops.Devlang.Loops.{
  refused, collect_steps, check_steps, loop_problems, check_outer_node, validate_v0_5, valid_plan,
  compile_v0_5,
}

valid_plan-ok : (p : Plan) {q : Plan} → valid_plan p ≡ ok q → IsValid p × (p ≡ q)
unfolding valid_plan
valid_plan-ok p {q} h = go (validate p) refl
  where
    go : (ps : List Ir.Problem) → validate p ≡ ps → IsValid p × (p ≡ q)
    go [] e = ((validate-IsValid_iff p).0 e, ok_inj (rw (e, valid_plan) at h))
    go (r ∷ rs) e = absurd (cc (rw (e, valid_plan) at h))

-- What the validation hands on are the loops of the file.
validated_loops :
    (fuel : ℕ) (sort visit : List String → List String) (ds : List Decl) {lets : LetEnv}
    {steps : Steps} {loops : List ForDecl}
    → validate_v0_5 fuel sort visit ds ≡ ok (lets, steps, loops)
    → for_loops ds ≡ loops
unfolding validate_v0_5
validated_loops fuel sort visit ds h =
    let (u, a, h1) = bind-eq-ok (settle (each refused ds)) _ h in
    let (values, b, h2) = bind-eq-ok (collect_lets fuel visit ds) _ h1 in
    let found = fold collect_steps ([], []) ds in
    let (u1, c, h3) = bind-eq-ok (settle found.1) _ h2 in
    let (u2, d, h4) = bind-eq-ok (check_steps fuel sort visit found.0) _ h3 in
    let (u3, e, h5) = bind-eq-ok (settle (each (loop_problems values) (for_loops ds))) _ h4 in
    let s = symbols ds in
    let nodes = pick s.nodes (visit (keys s.nodes)) in
    let (u4, f, h6) =
      bind-eq-ok (settle (s.errs ++ each (λ (x, n). check_outer_node values found.0 s n) nodes)) _
        h5 in
    ap (λ (r : LetEnv × Steps × List ForDecl). r.2) (ok_inj h6)

-- The plan has the targets of the file, and behind its nodes those of the loops.
abbrev pub HasNames : List Decl → LetEnv → Plan → Type 0
HasNames ds lets p =
    (map (λ t. t.id) p.targets ≡ target_names ds)
    × ((names : List String) × (ids p.nodes ≡ node_names ds ++ names)
        × IsNamed (rounds lets ds) names)

-- A file that version 0.5 compiles is one that it accepts, and gives a valid plan: the targets are
-- those of the file, and behind the nodes that stand outside of loops there is one node for each
-- loop of the file, text in its range and node of its body, in this order. Its name is that of the
-- node with each placeholder of the variable, from left to right, replaced by the text.
pub compile_v0_5-HasNames :
    (format : Value → String) (fuel : ℕ) (sort visit : List String → List String) (ds : List Decl)
    {p : Plan}
    → compile_v0_5 format fuel sort visit ds ≡ ok p
    → (lets : LetEnv) × (steps : Steps) × (loops : List ForDecl) × (validate_v0_5 fuel sort visit ds
        ≡ ok (lets, steps, loops))
      × IsValid p
      × HasNames ds lets p
unfolding compile_v0_5
compile_v0_5-HasNames format fuel sort visit ds {p} h =
    let ((lets, steps, loops), own, h1) =
      bind-eq-ok (lift _ (validate_v0_5 fuel sort visit ds)) _ h in
    let (q, low, h2) =
      bind-eq-ok (lift _ (lower_v0_5 format fuel sort visit lets steps loops ds)) _ h1 in
    let (valid, same) = valid_plan-ok q h2 in
    let accepted = lift-eq-ok _ (validate_v0_5 fuel sort visit ds) own in
    let (targets, nodes) =
      lower_v0_5-names format fuel sort visit lets steps loops ds
        (lift-eq-ok _ (lower_v0_5 format fuel sort visit lets steps loops ds) low) in
    (
      lets,
      steps,
      loops,
      accepted,
      subst IsValid same valid,
      subst (HasNames ds lets) same (
        targets,
        (
          loop_names lets loops,
          nodes,
          subst (λ l. IsNamed (rounds lets ds) (loop_names lets l))
              (validated_loops fuel sort visit ds accepted) (loops-IsNamed lets ds),
        ),
      ),
    )
