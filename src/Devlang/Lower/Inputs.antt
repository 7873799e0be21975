-- ===== src/Devlang/Lower/Inputs.antt =====
-- The inputs of a lowered node, key by key.
use dotdevops.Prelude.{
  String, ◌≡◌, refl, sym, ap, ◌∙◌, subst, true, false, Option, none, some, List, [], ◌∷◌, arith,
  mem, get?, Distinct, Bool-cases, Option-cases, inl, inr, ◌==◌, eq_iff, if◌then◌else◌,
}
use dotdevops.Json.{Value, Fields, field}
use dotdevops.Controller.Compare.{value_at}
use dotdevops.Devlang.Ast.{Expr}
use dotdevops.Devlang.Comp.{Comp, ok, ok_inj, bind-eq-ok}
use dotdevops.Devlang.Validate.{keys, found, pick}
use dotdevops.Devlang.Validate.Tables.{mem-keys-of_get?}
use dotdevops.Devlang.Validate.Accepted.{Visits}
use dotdevops.Devlang.Lower.{LowerError, lower_inputs, set, merge, or_else}

-- A value is the lowered expression, and both are there or none.
abbrev pub Lowered : (Expr → Comp LowerError Value) → Option Expr → Option Value → Type 0
Lowered lower none none = Unit
Lowered lower (some e) (some v) = lower e ≡ ok v
Lowered lower _ _ = ⊥

module _ (lower : Expr → Comp LowerError Value) where
  lower_inputs-step :
      (k : String) (e : Expr) (inputs : List (String × Expr)) {fs : Fields}
      → lower_inputs lower ((k, e) ∷ inputs) ≡ ok fs
      → (v : Value) × (rest : Fields) × (lower e ≡ ok v)
        × (lower_inputs lower inputs ≡ ok rest)
        × (field k v rest ≡ fs)
  unfolding lower_inputs
  lower_inputs-step k e inputs h =
      let (v, is, h1) = bind-eq-ok (lower e) _ h in
      let (rest, more, h2) = bind-eq-ok (lower_inputs lower inputs) _ h1 in
      (v, rest, is, more, ok_inj h2)

  missing :
      (m : List (String × Expr)) (ks : List String) (k : String) {fs : Fields}
      → get? k m ≡ none
      → lower_inputs lower (pick m ks) ≡ ok fs
      → value_at k fs ≡ none
  unfolding lower_inputs
  missing m [] k out h = subst (λ l. value_at k l ≡ none) (ok_inj h) refl
  missing m (j ∷ ks) k {fs} out h = elim (Option-cases (get? j m)) [
    | inl e ↦
        missing m ks k out (subst (λ o. lower_inputs lower (found j o (pick m ks)) ≡ ok fs) e h)
    | inr (d, e) ↦
        let (v, rest, is, more, same) =
          lower_inputs-step j d (pick m ks)
            (subst (λ o. lower_inputs lower (found j o (pick m ks)) ≡ ok fs) e h) in
        subst (λ l. value_at k l ≡ none) same
          (elim (Bool-cases (j == k)) [
            | inl eq ↦ absurd (cc (sym e ∙ ap (λ x. get? x m) ((eq_iff j k).0 eq) ∙ out))
            | inr ne ↦ rw ne (missing m ks k out more)
          ])
  ]

  present :
      (m : List (String × Expr)) (ks : List String) (k : String) (d : Expr) {fs : Fields}
      → get? k m ≡ some d
      → mem k ks ≡ true
      → lower_inputs lower (pick m ks) ≡ ok fs
      → (v : Value) × (lower d ≡ ok v) × (value_at k fs ≡ some v)
  present m [] k d at i h = cc
  present m (j ∷ ks) k d {fs} at i h = elim (Bool-cases (j == k)) [
    | inl eq ↦
        let there : get? j m ≡ some d =
          subst (λ x. get? x m ≡ some d) (sym ((eq_iff j k).0 eq)) at in
        let (v, rest, is, more, same) =
          lower_inputs-step j d (pick m ks)
            (subst (λ o. lower_inputs lower (found j o (pick m ks)) ≡ ok fs) there h) in
        (v, is, subst (λ l. value_at k l ≡ some v) same (rw eq refl))
    | inr ne ↦ elim (Option-cases (get? j m)) [
      | inl e ↦
          present m ks k d at (ground arith)
            (subst (λ o. lower_inputs lower (found j o (pick m ks)) ≡ ok fs) e h)
      | inr (c, e) ↦
          let (w, rest, is, more, same) =
            lower_inputs-step j c (pick m ks)
              (subst (λ o. lower_inputs lower (found j o (pick m ks)) ≡ ok fs) e h) in
          let (v, here, value) = present m ks k d at (ground arith) more in
          (v, here, subst (λ l. value_at k l ≡ some v) same (rw ne value))
    ]
  ]

  -- The lowered inputs have the keys of the declared ones, each with its lowered value.
  pub lower_inputs-Lowered :
      (visit : List String → List String) (m : List (String × Expr)) (k : String) {fs : Fields}
      → Visits visit
      → lower_inputs lower (pick m (visit (keys m))) ≡ ok fs
      → Lowered lower (get? k m) (value_at k fs)
  lower_inputs-Lowered visit m k visits h = elim (Option-cases (get? k m)) [
    | inl e ↦ rw (e, missing m (visit (keys m)) k e h) tt
    | inr (d, e) ↦
        let (v, is, at) =
          present m (visit (keys m)) k d e (visits (keys m) k ∙ mem-keys-of_get? k m e) h in
        rw (e, at) is
  ]

get?-set :
    (k j : String) (e : Expr) (m : List (String × Expr))
    → get? j (set k e m) ≡ (if k == j then some e else get? j m)
unfolding set
get?-set k j e [] = refl
get?-set k j e ((i, d) ∷ m) = ground (arith, eq_iff k j, eq_iff i k, eq_iff i j, get?-set k j e m)

get?-of_no_key : (k : String) (m : List (String × Expr)) → mem k (keys m) ≡ false → get? k m ≡ none
get?-of_no_key k [] h = refl
get?-of_no_key k ((j, e) ∷ m) h = ground (arith, get?-of_no_key k m)

-- The entries that are merged in go before those that were there.
pub get?-merge :
    (over m : List (String × Expr)) (j : String)
    → Distinct (keys over)
    → get? j (merge m over) ≡ or_else (get? j over) (get? j m)
unfolding merge
get?-merge [] m j d = refl
get?-merge ((k, e) ∷ over) m j d = elim (Bool-cases (k == j)) [
  | inl eq ↦
      let gone : get? j over ≡ none =
        subst (λ x. get? x over ≡ none) ((eq_iff k j).0 eq) (get?-of_no_key k over d.0) in
      get?-merge over (set k e m) j d.1
      ∙ ap (λ o. or_else o (get? j (set k e m))) gone
      ∙ get?-set k j e m
      ∙ rw eq refl
  | inr ne ↦
      get?-merge over (set k e m) j d.1 ∙ ap (or_else (get? j over)) (get?-set k j e m) ∙ rw ne refl
]
