-- ===== src/Devlang/Steps/Expand.antt =====
-- The expansion of steps that the search has found no cycle in.
use dotdevops.Prelude.{
  ℕ, zero, suc, ◌≤◌, String, ◌≡◌, refl, sym, ap, subst, Bool, true, false, ◌||◌, ◌==◌, none, some,
  List, [], ◌∷◌, arith, mem, length, get?, has, eq_iff, Bool-cases, Option-cases, inl, inr, All,
  of_mem-All,
}
use dotdevops.Devlang.Comp.{Comp, ok, ◌>>=◌}
use dotdevops.Devlang.Decl.{NodeDecl, StepDecl}
use dotdevops.Devlang.Validate.{Steps}
use dotdevops.Devlang.Validate.Tables.{absent-has, All-get?}
use dotdevops.Devlang.Steps.{
  if_no_primitive, parents, step_graph, Search, detect_cycles, resolves, ExpandError, unknown_step,
  clone, over_base, Cache, finish, parent_of, base_of, expand_step,
}
use dotdevops.Devlang.Steps.Order.{IsOrder, IsClean, detect_cycles-IsOrder}

-- A node with a primitive as its type.
abbrev pub IsPrimitive : List String → NodeDecl → Type 0
IsPrimitive primitives n = (t : String) × (n.type ≡ some t) × (mem t primitives ≡ true)

-- `known` are the primitives that the validation knows, `primitives` those that the expansion does.
module _ (steps : Steps) (known primitives : List String)
    (named : (x : String) (s : StepDecl) → get? x steps ≡ some s → s.name ≡ x)
    (resolved : (x : String) (s : StepDecl)
      → get? x steps ≡ some s
      → resolves steps primitives s ≡ true)
    (apart : (x : String) (s : StepDecl) → get? x steps ≡ some s → mem x known ≡ false) where
  abbrev AllPrimitive : Cache → Type 0
  AllPrimitive cache = All (λ e. IsPrimitive primitives e.1) cache

  -- A step is expanded to a primitive, and the cache keeps such nodes only.
  abbrev Expands : Comp ExpandError (NodeDecl × Cache) → Type 0
  Expands r =
      (n : NodeDecl) × (c : Cache) × (r ≡ ok (n, c)) × IsPrimitive primitives n × AllPrimitive c

  cached-IsPrimitive :
      (x : String) (cache : Cache) {n : NodeDecl}
      → AllPrimitive cache
      → get? x cache ≡ some n
      → IsPrimitive primitives n
  cached-IsPrimitive x cache all h = All-get? (λ e. IsPrimitive primitives e.1) cache x all h

  finish-Expands :
      (s : StepDecl) (r : Comp ExpandError (NodeDecl × Cache))
      → Expands r
      → Expands (r >>= λ b. ok (finish s b))
  unfolding finish over_base clone
  finish-Expands s r (n, c, e, prim, all) = (
    over_base s n,
    (s.name, clone (over_base s n)) ∷ c,
    ap (λ (q : Comp ExpandError (NodeDecl × Cache)). q >>= λ b. ok (finish s b)) e,
    prim,
    (prim, all),
  )

  -- The parent that a step's type names stands behind the step in the order.
  parent-mem :
      (order : List String) (x t : String) (s : StepDecl)
      → get? x steps ≡ some s
      → s.body.type ≡ some t
      → mem t known ≡ false
      → All (λ v. mem v order ≡ true) (step_graph steps known x)
      → mem t order ≡ true
  unfolding step_graph
  parent-mem order x t s at is own all =
      let here : All (λ v. mem v order ≡ true) (parents known (some s)) =
        subst (λ o. All (λ v. mem v order ≡ true) (parents known o)) at all in
      let typed : All (λ v. mem v order ≡ true) (if_no_primitive known (some t)) =
        subst (λ o. All (λ v. mem v order ≡ true) (if_no_primitive known o)) is here in
      (rw own at typed).0

  parent-found :
      (x t : String) (s : StepDecl)
      → get? x steps ≡ some s
      → s.body.type ≡ some t
      → mem t primitives ≡ false
      → (p : StepDecl) × (get? t steps ≡ some p)
  unfolding resolves
  parent-found x t s at is own =
      let known : (mem t primitives || has t steps) ≡ true =
        subst
          (λ o.
            elim o as (λ q. Bool) [ none ↦ false | some u ↦ mem u primitives || has u steps ]
            ≡ true)
          is (resolved x s at) in
      elim (Option-cases (get? t steps)) [
        | inl e ↦ absurd (ground (arith, absent-has t steps e))
        | inr found ↦ found
      ]

  typed :
      (x : String) (s : StepDecl) → get? x steps ≡ some s → (t : String) × (s.body.type ≡ some t)
  unfolding resolves
  typed x s at = elim (Option-cases s.body.type) [
    | inl e ↦ absurd (cc (rw e at (resolved x s at)))
    | inr found ↦ found
  ]

  cached_Expands :
      (fuel : ℕ) (s : StepDecl) (cache : Cache) (n : NodeDecl)
      → get? s.name cache ≡ some n
      → AllPrimitive cache
      → Expands (expand_step steps primitives (suc fuel) s cache)
  unfolding expand_step clone
  cached_Expands fuel s cache n hit all =
      (clone n, cache, rw (hit, expand_step) refl, cached-IsPrimitive s.name cache all hit, all)

  uncached_Expands :
      (fuel : ℕ) (s : StepDecl) (cache : Cache)
      → get? s.name cache ≡ none
      → Expands (base_of steps primitives (expand_step steps primitives fuel) s cache s.body.type)
      → Expands (expand_step steps primitives (suc fuel) s cache)
  unfolding expand_step
  uncached_Expands fuel s cache miss base =
      rw (miss, expand_step)
        (finish-Expands s
          (base_of steps primitives (expand_step steps primitives fuel) s cache s.body.type) base)

  parent_Expands :
      (go : StepDecl → Cache → Comp ExpandError (NodeDecl × Cache)) (cache : Cache)
      (unknown : ExpandError) (p : StepDecl)
      → Expands (go p cache)
      → Expands (parent_of go cache unknown (some p))
  unfolding parent_of clone
  parent_Expands go cache unknown p (n, c, e, prim, all) = (
    clone n,
    c,
    ap (λ (q : Comp ExpandError (NodeDecl × Cache)). q >>= λ (m, d). ok (clone m, d)) e,
    prim,
    all,
  )

  base_Expands :
      (fuel : ℕ) (x t : String) (s : StepDecl) (cache : Cache)
      → s.body.type ≡ some t
      → AllPrimitive cache
      → (mem t primitives ≡ false
          → (p : StepDecl) × (get? t steps ≡ some p)
            × Expands (expand_step steps primitives fuel p cache))
      → Expands (base_of steps primitives (expand_step steps primitives fuel) s cache s.body.type)
  unfolding base_of clone
  base_Expands fuel x t s cache is all parent =
      let go = expand_step steps primitives fuel in
      subst (λ o. Expands (base_of steps primitives go s cache o)) (sym is)
        (elim (Bool-cases (mem t primitives)) [
          | inl own ↦ rw own (clone s.body, cache, refl, (t, is, own), all)
          | inr other ↦
              let (p, found, expanded) = parent other in
              rw other (
                subst (λ o. Expands (parent_of go cache (unknown_step s.name t) o)) (sym found)
                  (parent_Expands go cache (unknown_step s.name t) p expanded))
        ])

  expands :
      (order : List String) (fuel : ℕ) (x : String) (s : StepDecl) (cache : Cache)
      → IsOrder (step_graph steps known) order
      → length order ≤ fuel
      → mem x order ≡ true
      → get? x steps ≡ some s
      → AllPrimitive cache
      → Expands (expand_step steps primitives fuel s cache)
  expands [] fuel x s cache ordered enough m at all = cc
  expands (y ∷ order) zero x s cache ordered enough m at all = absurd (omega arith)
  expands (y ∷ order) (suc fuel) x s cache ordered enough m at all = elim (Bool-cases (y == x)) [
    | inr ne ↦ expands order (suc fuel) x s cache ordered.1 (omega arith) (ground arith) at all
    | inl e ↦ elim (Option-cases (get? s.name cache)) [
      | inr (n, hit) ↦ cached_Expands fuel s cache n hit all
      | inl miss ↦
          let (t, is) = typed x s at in
          let behind =
            subst (λ z. All (λ v. mem v order ≡ true) (step_graph steps known z)) ((eq_iff y x).0 e)
              ordered.0 in
          uncached_Expands fuel s cache miss (
            base_Expands fuel x t s cache is all (λ own.
              let (p, found) = parent-found x t s at is own in
              (
                p,
                found,
                expands order fuel t p cache ordered.1 (omega arith)
                    (parent-mem order x t s at is (apart t p found) behind) found all,
              )))
    ]
  ]

-- The validation searches with the primitives that it knows, the expansion has fewer. The steps of
-- a file whose search reports no cycle, none with the name of a primitive that the validation knows,
-- and each of a type that is a step or a primitive of the expansion, are expanded to a node whose
-- type is such a primitive, with any fuel from some amount on.
pub expand_step-IsPrimitive :
    (steps : Steps) (known primitives names : List String) (fuel : ℕ) {r : Search}
    → detect_cycles (step_graph steps known) fuel names ≡ some r
    → IsClean r
    → ((x : String) (s : StepDecl) → get? x steps ≡ some s → s.name ≡ x)
    → ((x : String) (s : StepDecl) → get? x steps ≡ some s → mem x names ≡ true)
    → ((x : String) (s : StepDecl) → get? x steps ≡ some s → resolves steps primitives s ≡ true)
    → ((x : String) (s : StepDecl) → get? x steps ≡ some s → mem x known ≡ false)
    → (k : ℕ) × ((f : ℕ)
        → k ≤ f
        → (x : String) (s : StepDecl) → get? x steps ≡ some s
        → (n : NodeDecl) × (c : Cache) × (expand_step steps primitives f s [] ≡ ok (n, c))
          × IsPrimitive primitives n)
expand_step-IsPrimitive steps known primitives names fuel {r} searched clean named listed resolved
      apart =
    let (order, ordered, all) =
      detect_cycles-IsOrder (step_graph steps known) fuel names searched clean in
    (
      length order,
      λ f le x s at.
          let (n, c, e, prim, rest) =
            expands steps known primitives named resolved apart order f x s [] ordered le
              (of_mem-All (λ u. mem u order ≡ true) names all x (listed x s at)) at tt in
          (n, c, e, prim),
    )
