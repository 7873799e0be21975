-- ===== src/Devlang/Unroll/Names.antt =====
-- The nodes and the targets of an unrolled plan, by their names.
use dotdevops.Prelude.{
  ℕ, String, ◌≡◌, refl, sym, ap, ◌∙◌, subst, Option, none, some, List, [], ◌∷◌, ◌++◌, map, get?,
  Option-cases, inl, inr,
}
use dotdevops.Json.{Value}
use dotdevops.Plan.Schema.{Target, Node, Plan, ids}
use dotdevops.Devlang.Ast.{Expr, Exprs, LetEnv, str, list, nil, cons}
use dotdevops.Devlang.Comp.{Comp, ok, err, no_fuel, ok_inj, bind-eq-ok}
use dotdevops.Devlang.Decl.{NodeDecl, StepDecl, Decl, Decls, node_decl, decl}
use dotdevops.Devlang.Decl as Decl
use dotdevops.Devlang.Validate.{Steps, keys, pick, resolve_let}
use dotdevops.Devlang.Validate.Tables.{target_names, node_names}
use dotdevops.Devlang.Lower.{lower_targets, lower_expr, plan_node}
use dotdevops.Devlang.Lower.Nodes.{lower_targets-ids}
use dotdevops.Devlang.Steps.{clone, expand_node, expand_node_of, expand_typed, expand_step}
use dotdevops.Devlang.Compile.{lift}
use dotdevops.Devlang.Substitute.{substitute}
use dotdevops.Devlang.Unroll.{
  expandable, substitute_node, seal_inputs, lower_node_to_plan, lower_expanded, ForDecl, of_type,
  lower_outer, unroll_body, unroll_elems, unroll_range, unroll, lower_v0_5,
}

-- The names of the nodes of a loop's body, for one value of its variable.
abbrev pub body_names : String → String → Decls → List String
body_names x v Decl.end = []
body_names x v (decl (node_decl n) ds) = substitute x v n.name ∷ body_names x v ds
body_names x v (decl d ds) = body_names x v ds

abbrev pub elem_names : String → Decls → Exprs → List String
elem_names x body nil = []
elem_names x body (cons (str v) es) = body_names x v body ++ elem_names x body es
elem_names x body (cons e es) = elem_names x body es

abbrev pub range_names : String → Decls → Expr → List String
range_names x body (list es) = elem_names x body es
range_names x body e = []

-- The names that the loops generate.
abbrev pub loop_names : LetEnv → List ForDecl → List String
loop_names lets [] = []
loop_names lets (l ∷ ls) =
    range_names l.var_name l.body (resolve_let lets l.range) ++ loop_names lets ls

pub lift-eq-ok : {E F A : Type 0} (f : E → F) (m : Comp E A) {a : A} → lift f m ≡ ok a → m ≡ ok a
lift-eq-ok f (ok b) h = ap ok (ok_inj h)
lift-eq-ok f (err e) h = cc
lift-eq-ok f no_fuel h = cc

ids-append :
    (ps qs : List Node) {ms ns : List String}
    → ids ps ≡ ms
    → ids qs ≡ ns
    → ids (ps ++ qs) ≡ ms ++ ns
ids-append [] qs {ms} {ns} g h = subst (λ l. ids qs ≡ l ++ ns) g h
ids-append (p ∷ ps) qs {ms} {ns} g h =
    subst (λ l. ids ((p ∷ ps) ++ qs) ≡ l ++ ns) g (ap (λ l. p.id ∷ l) (ids-append ps qs refl h))

module _ (format : Value → String) (fuel : ℕ) (sort visit : List String → List String)
    (lets : LetEnv) (steps : Steps) where
  expand_node_of-name :
      (n : NodeDecl) (o : Option StepDecl) {m : NodeDecl}
      → expand_node_of steps expandable fuel n o ≡ ok m
      → m.name ≡ n.name
  unfolding expand_node_of
  expand_node_of-name n none h = ap (λ (q : NodeDecl). q.name) (sym (ok_inj h))
  expand_node_of-name n (some s) h =
      let (r, is, same) = bind-eq-ok (expand_step steps expandable fuel s []) _ h in
      ap (λ (q : NodeDecl). q.name) (sym (ok_inj same))

  expanded-name :
      (n : NodeDecl) {m : NodeDecl} → expand_node steps expandable fuel n ≡ ok m → m.name ≡ n.name
  unfolding expand_node expand_node_of
  expanded-name n {m} h = elim (Option-cases n.type) [
    | inl e ↦ absurd (cc (subst (λ o. expand_typed steps expandable fuel n o ≡ ok m) e h))
    | inr (t, e) ↦
        expand_node_of-name n (get? t steps)
          (subst (λ o. expand_typed steps expandable fuel n o ≡ ok m) e h)
  ]

  lowered-id :
      (m : NodeDecl) {p : Node}
      → lower_node_to_plan format fuel sort visit lets steps m ≡ ok p
      → p.id ≡ m.name
  unfolding lower_node_to_plan plan_node
  lowered-id m {p} h = elim (Option-cases m.type) [
    | inl e ↦ absurd (cc (rw e at h))
    | inr (t, e) ↦
        let (r, is, same) =
          bind-eq-ok
            (seal_inputs (lower_expr format fuel lets) (pick m.inputs (visit (keys m.inputs)))) _
            (rw e at h) in
        subst (λ (q : Node). q.id ≡ m.name) (ok_inj same) refl
  ]

  node-id :
      (n : NodeDecl) {p : Node}
      → lower_expanded format fuel sort visit lets steps n ≡ ok p
      → p.id ≡ n.name
  unfolding lower_expanded
  node-id n h =
      let (m, first, rest) = bind-eq-ok (lift _ (expand_node steps expandable fuel n)) _ h in
      lowered-id m (lift-eq-ok _ (lower_node_to_plan format fuel sort visit lets steps m) rest)
      ∙ expanded-name n (lift-eq-ok _ (expand_node steps expandable fuel n) first)

  outer-ids :
      (ds : List Decl) {ps : List Node}
      → lower_outer format fuel sort visit lets steps ds ≡ ok ps
      → ids ps ≡ node_names ds
  unfolding lower_outer lower_expanded
  outer-ids [] h = subst (λ l. ids l ≡ []) (ok_inj h) refl
  outer-ids (node_decl n ∷ ds) h =
      let (p, own, h1) = bind-eq-ok (of_type format fuel sort visit lets steps n n.type) _ h in
      let (ps, rest, h2) = bind-eq-ok (lower_outer format fuel sort visit lets steps ds) _ h1 in
      let here : p.id ≡ n.name = elim (Option-cases n.type) [
        | inl e ↦
            absurd (cc (subst (λ o. of_type format fuel sort visit lets steps n o ≡ ok p) e own))
        | inr (t, e) ↦
            node-id n (subst (λ o. of_type format fuel sort visit lets steps n o ≡ ok p) e own)
      ] in
      subst (λ l. ids l ≡ n.name ∷ node_names ds) (ok_inj h2) (λ i. here i ∷ outer-ids ds rest i)
  outer-ids (d ∷ ds) h = outer-ids ds h

  body-ids :
      (x v : String) (ds : Decls) {ps : List Node}
      → unroll_body format fuel sort visit lets steps x v ds ≡ ok ps
      → ids ps ≡ body_names x v ds
  unfolding unroll_body substitute_node clone
  body-ids x v Decl.end h = subst (λ l. ids l ≡ []) (ok_inj h) refl
  body-ids x v (decl (node_decl n) ds) h =
      let (p, own, h1) =
        bind-eq-ok
          (lower_expanded format fuel sort visit lets steps (substitute_node x v (clone n))) _ h in
      let (ps, rest, h2) = bind-eq-ok (unroll_body format fuel sort visit lets steps x v ds) _ h1 in
      subst (λ l. ids l ≡ substitute x v n.name ∷ body_names x v ds) (ok_inj h2)
        (λ i. node-id (substitute_node x v (clone n)) own i ∷ body-ids x v ds rest i)
  body-ids x v (decl d ds) h = body-ids x v ds h

  elem-ids :
      (x : String) (body : Decls) (es : Exprs) {ps : List Node}
      → unroll_elems format fuel sort visit lets steps x body es ≡ ok ps
      → ids ps ≡ elem_names x body es
  unfolding unroll_elems
  elem-ids x body nil h = subst (λ l. ids l ≡ []) (ok_inj h) refl
  elem-ids x body (cons (str v) es) h =
      let (ps, own, h1) = bind-eq-ok (unroll_body format fuel sort visit lets steps x v body) _ h in
      let (qs, rest, h2) =
        bind-eq-ok (unroll_elems format fuel sort visit lets steps x body es) _ h1 in
      subst (λ l. ids l ≡ body_names x v body ++ elem_names x body es) (ok_inj h2)
        (ids-append ps qs (body-ids x v body own) (elem-ids x body es rest))
  elem-ids x body (cons e es) h = elem-ids x body es h

  range-ids :
      (x : String) (body : Decls) (e : Expr) {ps : List Node}
      → unroll_range format fuel sort visit lets steps x body e ≡ ok ps
      → ids ps ≡ range_names x body e
  unfolding unroll_elems
  range-ids x body (list es) h = elem-ids x body es h
  range-ids x body e h = cc

  unroll-ids :
      (ls : List ForDecl) {ps : List Node}
      → unroll format fuel sort visit lets steps ls ≡ ok ps
      → ids ps ≡ loop_names lets ls
  unfolding unroll unroll_elems
  unroll-ids [] h = subst (λ l. ids l ≡ []) (ok_inj h) refl
  unroll-ids (l ∷ ls) h =
      let e = resolve_let lets l.range in
      let (ps, own, h1) =
        bind-eq-ok (unroll_range format fuel sort visit lets steps l.var_name l.body e) _ h in
      let (qs, rest, h2) = bind-eq-ok (unroll format fuel sort visit lets steps ls) _ h1 in
      subst (λ k. ids k ≡ range_names l.var_name l.body e ++ loop_names lets ls) (ok_inj h2)
        (ids-append ps qs (range-ids l.var_name l.body e own) (unroll-ids ls rest))

-- A plan that version 0.5 lowers has the targets of the file and, behind the nodes that stand
-- outside of loops, one node for each loop, element of its range and node of its body, in this
-- order, under the name of that node with the element in place of the variable.
pub lower_v0_5-names :
    (format : Value → String) (fuel : ℕ) (sort visit : List String → List String) (lets : LetEnv)
    (steps : Steps) (loops : List ForDecl) (ds : List Decl) {p : Plan}
    → lower_v0_5 format fuel sort visit lets steps loops ds ≡ ok p
    → (map (λ t. t.id) p.targets ≡ target_names ds)
      × (ids p.nodes ≡ node_names ds ++ loop_names lets loops)
unfolding lower_v0_5
lower_v0_5-names format fuel sort visit lets steps loops ds h =
    let (ts, own, h1) = bind-eq-ok (lift _ (lower_targets ds)) _ h in
    let (ps, outer, h2) = bind-eq-ok (lower_outer format fuel sort visit lets steps ds) _ h1 in
    let (qs, inner, h3) = bind-eq-ok (unroll format fuel sort visit lets steps loops) _ h2 in
    subst
      (λ (q : Plan).
        (map (λ (t : Target). t.id) q.targets ≡ target_names ds)
        × (ids q.nodes ≡ node_names ds ++ loop_names lets loops))
      (ok_inj h3)
      (
        lower_targets-ids ds (lift-eq-ok _ (lower_targets ds) own),
        ids-append ps qs (outer-ids format fuel sort visit lets steps ds outer)
            (unroll-ids format fuel sort visit lets steps loops inner),
      )
