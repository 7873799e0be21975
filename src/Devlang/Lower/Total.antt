-- ===== src/Devlang/Lower/Total.antt =====
-- The lowering of a file that version 0.4 accepts returns, if its inputs are values.
use dotdevops.Prelude.{
  ℕ, suc, String, ◌≡◌, refl, sym, ap, ◌∙◌, true, some, get?, has, Option-cases, inl, inr,
}
use dotdevops.Prelude.Fuel.{Eventually, always, spend, once, both}
use dotdevops.Json.{Value, Values, Fields, slice, object, item, end, field}
use dotdevops.Json as Json
use dotdevops.Devlang.Ast.{
  Expr, Exprs, LetEnv, ident, str, bool, number, list, binary, secret, nil, cons, op_add,
}
use dotdevops.Devlang.Comp.{Comp, ok, ◌>>=◌}
use dotdevops.Devlang.Validate.Tables.{absent-has}
use dotdevops.Devlang.Lower.{LowerError, lower_expr, lower_elems}
use dotdevops.Devlang.Eval.Literal.{IsLiteral, AreLiterals}

-- What the lowering takes as the value of an input: literals, lets, lists and sums of these.
unfoldable mutual
  pub IsValue : LetEnv → Expr → Type 0
  IsValue lets (str s) = Unit
  IsValue lets (bool b) = Unit
  IsValue lets (number n) = Unit
  IsValue lets (secret k) = Unit
  IsValue lets (list es) = AreValues lets es
  IsValue lets (ident x) = has x lets ≡ true
  IsValue lets (binary op_add l r) = IsValue lets l × IsValue lets r
  IsValue lets _ = ⊥

  pub AreValues : LetEnv → Exprs → Type 0
  AreValues lets nil = Unit
  AreValues lets (cons e es) = IsValue lets e × AreValues lets es

-- A computation on fuel returns a value, the same for all fuel from some amount on.
abbrev pub Returns : {E A : Type 0} → (ℕ → Comp E A) → Type 0
Returns {E} {A} m = (a : A) × Eventually (λ f. m f ≡ ok a)

pub returned : {E A : Type 0} (m : ℕ → Comp E A) (a : A) → ((f : ℕ) → m f ≡ ok a) → Returns m
returned m a h = (a, always _ h)

pub Returns-bind :
    {E A B : Type 0} (m : ℕ → Comp E A) (k : ℕ → A → Comp E B)
    → Returns m
    → ((a : A) → Returns (λ f. k f a))
    → Returns (λ f. m f >>= k f)
Returns-bind {E} {A} {B} m k (a, now) next =
    let (b, after) = next a in
    (
      b,
      both (λ f. m f ≡ ok a) (λ f. k f a ≡ ok b) (λ f. (m f >>= k f) ≡ ok b)
          (λ f h g. ap (λ (c : Comp E A). c >>= k f) h ∙ g) now after,
    )

module _ (format : Value → String) (lets : LetEnv) where
  abbrev Lowers : Expr → Type 0
  Lowers e = Returns (λ f. lower_expr format f lets e)

  abbrev LowersAll : Exprs → Type 0
  LowersAll es = Returns (λ f. lower_elems (lower_expr format f lets) es)

  at_once : (e : Expr) (v : Value) → ((f : ℕ) → lower_expr format (suc f) lets e ≡ ok v) → Lowers e
  at_once e v h = (v, once _ h)

  later :
      (e : Expr) (m : ℕ → Comp LowerError Value)
      → ((f : ℕ) → lower_expr format (suc f) lets e ≡ m f)
      → Returns m
      → Lowers e
  later e m step (v, h) = (v, spend _ _ (λ f g. step f ∙ g) h)

  cons-lowers : (e : Expr) (es : Exprs) → Lowers e → LowersAll es → LowersAll (cons e es)
  unfolding lower_elems
  cons-lowers e es h k =
      Returns-bind (λ f. lower_expr format f lets e) _ h
        (λ v.
          Returns-bind (λ f. lower_elems (lower_expr format f lets) es) _ k
            (λ vs. returned _ (item v vs) (λ f. refl)))

  list-lowers : (es : Exprs) → LowersAll es → Lowers (list es)
  unfolding lower_expr
  list-lowers es h =
      later (list es) _ (λ f. refl)
        (Returns-bind (λ f. lower_elems (lower_expr format f lets) es) _ h
          (λ vs. returned _ (slice vs) (λ f. refl)))

  mutual
    unfolding IsLiteral lower_expr lower_elems

    literal-lowers : (e : Expr) → IsLiteral e → Lowers e
    literal-lowers (str s) h = at_once (str s) (Json.str s) (λ f. refl)
    literal-lowers (bool b) h = at_once (bool b) (Json.bool b) (λ f. refl)
    literal-lowers (number n) h = at_once (number n) (Json.int n) (λ f. refl)
    literal-lowers (secret k) h =
        at_once (secret k) (object (field "__secret__" (Json.str k) end)) (λ f. refl)
    literal-lowers (list es) h = list-lowers es (literals-lower es h)
    literal-lowers e h = absurd h

    literals-lower : (es : Exprs) → AreLiterals es → LowersAll es
    literals-lower nil h = returned _ Values.none (λ f. refl)
    literals-lower (cons e es) h = cons-lowers e es (literal-lowers e h.0) (literals-lower es h.1)

  module _ (literals : (x : String) (e : Expr) → get? x lets ≡ some e → IsLiteral e) where
    let-lowers : (x : String) → has x lets ≡ true → Lowers (ident x)
    unfolding lower_expr
    let-lowers x h = elim (Option-cases (get? x lets)) [
      | inl e ↦ absurd (cc (sym h ∙ absent-has x lets e))
      | inr (d, e) ↦
          later (ident x) (λ f. lower_expr format f lets d) (λ f. rw (e, lower_expr) refl)
            (literal-lowers d (literals x d e))
    ]

    sum-lowers : (l r : Expr) → Lowers l → Lowers r → Lowers (binary op_add l r)
    unfolding lower_expr
    sum-lowers l r h k =
        later (binary op_add l r) _ (λ f. refl)
          (Returns-bind (λ f. lower_expr format f lets l) _ h
            (λ a.
              Returns-bind (λ f. lower_expr format f lets r) _ k (λ b. returned _ _ (λ f. refl))))

    mutual
      unfolding IsValue lower_expr lower_elems

      pub value-lowers : (e : Expr) → IsValue lets e → Lowers e
      value-lowers (str s) h = at_once (str s) (Json.str s) (λ f. refl)
      value-lowers (bool b) h = at_once (bool b) (Json.bool b) (λ f. refl)
      value-lowers (number n) h = at_once (number n) (Json.int n) (λ f. refl)
      value-lowers (secret k) h =
          at_once (secret k) (object (field "__secret__" (Json.str k) end)) (λ f. refl)
      value-lowers (list es) h = list-lowers es (values-lower es h)
      value-lowers (ident x) h = let-lowers x h
      value-lowers (binary op_add l r) h = sum-lowers l r (value-lowers l h.0) (value-lowers r h.1)
      value-lowers e h = absurd h

      values-lower : (es : Exprs) → AreValues lets es → LowersAll es
      values-lower nil h = returned _ Values.none (λ f. refl)
      values-lower (cons e es) h = cons-lowers e es (value-lowers e h.0) (values-lower es h.1)
