-- ===== src/Devlang/Lower/Returns.antt =====
-- The plan of a file that version 0.4 accepts and whose inputs are values.
use dotdevops.Prelude.{
  ℕ, String, ◌≡◌, ◌≢◌, refl, sym, subst, none, some, List, [], ◌∷◌, arith, get?, ◌==◌, Bool-cases,
  Option-cases, inl, inr, All,
}
use dotdevops.Devlang.Ast.{Expr, LetEnv}
use dotdevops.Devlang.Comp.{Comp, ok, err, no_fuel, ok_inj, bind-eq-ok}
use dotdevops.Devlang.Eval.{EvalError, eval}
use dotdevops.Devlang.Eval.Literal.{IsLiteral, eval-IsLiteral}
use dotdevops.Devlang.Decl.{Decl, target_decl}
use dotdevops.Devlang.Validate.Tables.{All-get?}
use dotdevops.Devlang.Validate.{
  Problem, settle, keys, found, pick, fold, add_let, type_problems, evaluate_lets, collect_lets,
}
use dotdevops.Devlang.Lower.{set, merge}
use dotdevops.Devlang.Lower.Total.{IsValue}

abbrev LiteralEntry : String × Expr → Type 0
LiteralEntry (x, e) = IsLiteral e

evaluated-literals :
    (fuel : ℕ) (lets : LetEnv) (entries : List (String × Expr)) {values : LetEnv}
    {ps : List Problem}
    → evaluate_lets fuel lets entries ≡ ok (values, ps)
    → All LiteralEntry values
unfolding evaluate_lets
evaluated-literals fuel lets [] h =
    subst (λ (r : LetEnv × List Problem). All LiteralEntry r.0) (ok_inj h) tt
evaluated-literals fuel lets ((x, e) ∷ rest) {values} {ps} h =
    go (eval fuel lets e) refl (λ (vs : LetEnv) (qs : List Problem).
      evaluated-literals fuel lets rest {values = vs} {ps = qs})
  where
    go :
        (r : Comp EvalError Expr)
        → eval fuel lets e ≡ r
        → ((vs : LetEnv) (qs : List Problem)
            → evaluate_lets fuel lets rest ≡ ok (vs, qs)
            → All LiteralEntry vs)
        → All LiteralEntry values
    go (ok v) eq ih =
        let ((vs, qs), more, same) =
          bind-eq-ok (evaluate_lets fuel lets rest) _ (rw (eq, evaluate_lets) at h) in
        subst (λ (r : LetEnv × List Problem). All LiteralEntry r.0) (ok_inj same)
          (eval-IsLiteral fuel lets e v eq, ih vs qs more)
    go (err p) eq ih =
        let ((vs, qs), more, same) =
          bind-eq-ok (evaluate_lets fuel lets rest) _ (rw (eq, evaluate_lets) at h) in
        subst (λ (r : LetEnv × List Problem). All LiteralEntry r.0) (ok_inj same) (ih vs qs more)
    go no_fuel eq ih = absurd (cc (rw (eq, evaluate_lets) at h))

IsLiteral-of_get? :
    (lets : LetEnv)
    → All LiteralEntry lets
    → (x : String) (e : Expr) → get? x lets ≡ some e
    → IsLiteral e
IsLiteral-of_get? [] all x e h = cc
IsLiteral-of_get? ((y, d) ∷ lets) all x e h = elim (Bool-cases (y == x)) [
  | inl same ↦ let is : d ≡ e = ground arith in subst IsLiteral is all.0
  | inr other ↦ IsLiteral-of_get? lets all.1 x e (ground arith)
]

-- The lets that are collected are literals.
pub lets-IsLiteral :
    (fuel : ℕ) (visit : List String → List String) (ds : List Decl) {lets : LetEnv}
    → collect_lets fuel visit ds ≡ ok lets
    → (x : String) (e : Expr) → get? x lets ≡ some e
    → IsLiteral e
unfolding collect_lets
lets-IsLiteral fuel visit ds {lets} h =
    let table = fold add_let ([], []) ds in
    let visited = pick table.0 (visit (keys table.0)) in
    let (v1, b1, g1) = bind-eq-ok (settle table.1) _ h in
    let (v2, b2, g2) = bind-eq-ok (type_problems fuel table.0 visited) _ g1 in
    let (v3, b3, g3) = bind-eq-ok (settle v2) _ g2 in
    let (v4, b4, g4) = bind-eq-ok (evaluate_lets fuel table.0 visited) _ g3 in
    let (v5, b5, g5) = bind-eq-ok (settle v4.1) _ g4 in
    IsLiteral-of_get? lets (
      subst (All LiteralEntry) (ok_inj g5)
        (evaluated-literals fuel table.0 visited {values = v4.0} {ps = v4.1} b4))

abbrev pub AreInputs : LetEnv → List (String × Expr) → Type 0
AreInputs lets inputs = All (λ e. IsValue lets e.1) inputs

module _ {ℓ} {V : Type ℓ} (P : String × V → Type 0) where
  pub All-picked : (m : List (String × V)) (ks : List String) → All P m → All P (pick m ks)
  All-picked m [] all = tt
  All-picked m (k ∷ ks) all = elim (Option-cases (get? k m)) [
    | inl e ↦ subst (λ o. All P (found k o (pick m ks))) (sym e) (All-picked m ks all)
    | inr (v, e) ↦
        subst (λ o. All P (found k o (pick m ks))) (sym e)
          (All-get? P m k all e, All-picked m ks all)
  ]

module _ (lets : LetEnv) where
  set-AreInputs :
      (k : String) (e : Expr) (m : List (String × Expr))
      → IsValue lets e
      → AreInputs lets m
      → AreInputs lets (set k e m)
  unfolding set
  set-AreInputs k e [] v all = (v, tt)
  set-AreInputs k e ((j, d) ∷ m) v all = elim (Bool-cases (j == k)) [
    | inl eq ↦ rw (eq, set) (v, all.1)
    | inr ne ↦ rw (ne, set) (all.0, set-AreInputs k e m v all.1)
  ]

  pub merge-AreInputs :
      (m over : List (String × Expr))
      → AreInputs lets m
      → AreInputs lets over
      → AreInputs lets (merge m over)
  unfolding merge
  merge-AreInputs m [] all new = all
  merge-AreInputs m ((k, e) ∷ over) all new =
      merge-AreInputs (set k e m) over (set-AreInputs k e m new.0 all) new.1

-- What a file has for its lowering: an address for each target, and values as inputs.
abbrev pub HasAddresses : List Decl → Type 0
HasAddresses [] = Unit
HasAddresses (target_decl t ∷ ds) = (t.address ≢ none) × HasAddresses ds
HasAddresses (d ∷ ds) = HasAddresses ds
