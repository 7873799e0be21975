-- ===== src/Devlang/Eval/Literal.antt =====
-- The evaluation of an expression returns a literal.
use dotdevops.Prelude.{ℕ, zero, suc, ◌≡◌, subst, true, false, get?, Option-cases, inl, inr}
use dotdevops.Devlang.Ast.{
  Expr, Exprs, LetEnv, BinaryOp, ident, str, bool, number, list, binary, ternary, secret, call,
  map_literal, nil, cons, op_add, op_and, op_or, op_eq, op_neq,
}
use dotdevops.Devlang.Comp.{Comp, ok, ok_inj, bind-eq-ok}
use dotdevops.Devlang.Eval.{EvalError, eval, eval_elems, apply_op, choose}

-- Literals: what the evaluation of an expression returns.
unfoldable mutual
  pub IsLiteral : Expr → Type 0
  IsLiteral (str s) = Unit
  IsLiteral (bool b) = Unit
  IsLiteral (number n) = Unit
  IsLiteral (secret k) = Unit
  IsLiteral (list es) = AreLiterals es
  IsLiteral _ = ⊥

  pub AreLiterals : Exprs → Type 0
  AreLiterals nil = Unit
  AreLiterals (cons e es) = IsLiteral e × AreLiterals es

literal_elems :
    (evaluate : Expr → Comp EvalError Expr) (es : Exprs) {vs : Exprs}
    → ((e v : Expr) → evaluate e ≡ ok v → IsLiteral v)
    → eval_elems evaluate es ≡ ok vs
    → AreLiterals vs
unfolding IsLiteral eval_elems
literal_elems evaluate nil f h = subst AreLiterals (ok_inj h) tt
literal_elems evaluate (cons e es) f h =
    let (v, first, h1) = bind-eq-ok (evaluate e) _ h in
    let (vs, rest, h2) = bind-eq-ok (eval_elems evaluate es) _ h1 in
    subst AreLiterals (ok_inj h2) (f e v first, literal_elems evaluate es f rest)

add-IsLiteral : (a b v : Expr) → apply_op op_add a b ≡ ok v → IsLiteral v
unfolding IsLiteral apply_op
add-IsLiteral (str a) (str b) v h = subst IsLiteral (ok_inj h) tt
add-IsLiteral a b v h = cc

and-IsLiteral : (a b v : Expr) → apply_op op_and a b ≡ ok v → IsLiteral v
unfolding IsLiteral apply_op
and-IsLiteral (bool a) (bool b) v h = subst IsLiteral (ok_inj h) tt
and-IsLiteral a b v h = cc

or-IsLiteral : (a b v : Expr) → apply_op op_or a b ≡ ok v → IsLiteral v
unfolding IsLiteral apply_op
or-IsLiteral (bool a) (bool b) v h = subst IsLiteral (ok_inj h) tt
or-IsLiteral a b v h = cc

op-IsLiteral : (op : BinaryOp) (a b v : Expr) → apply_op op a b ≡ ok v → IsLiteral v
unfolding IsLiteral apply_op
op-IsLiteral op_add a b v h = add-IsLiteral a b v h
op-IsLiteral op_and a b v h = and-IsLiteral a b v h
op-IsLiteral op_or a b v h = or-IsLiteral a b v h
op-IsLiteral op_eq a b v h = subst IsLiteral (ok_inj h) tt
op-IsLiteral op_neq a b v h = subst IsLiteral (ok_inj h) tt

choose-IsLiteral :
    (c : Expr) (x y : Comp EvalError Expr) (v : Expr)
    → ((u : Expr) → x ≡ ok u → IsLiteral u)
    → ((u : Expr) → y ≡ ok u → IsLiteral u)
    → choose c x y ≡ ok v
    → IsLiteral v
unfolding choose
choose-IsLiteral (bool true) x y v f g h = f v h
choose-IsLiteral (bool false) x y v f g h = g v h
choose-IsLiteral c x y v f g h = cc

pub eval-IsLiteral : (fuel : ℕ) (lets : LetEnv) (e v : Expr) → eval fuel lets e ≡ ok v → IsLiteral v
unfolding eval IsLiteral
eval-IsLiteral zero lets e v h = cc
eval-IsLiteral (suc fuel) lets (str s) v h = subst IsLiteral (ok_inj h) tt
eval-IsLiteral (suc fuel) lets (bool b) v h = subst IsLiteral (ok_inj h) tt
eval-IsLiteral (suc fuel) lets (number n) v h = subst IsLiteral (ok_inj h) tt
eval-IsLiteral (suc fuel) lets (secret k) v h = subst IsLiteral (ok_inj h) tt
eval-IsLiteral (suc fuel) lets (list es) v h =
    let (vs, elems, h1) = bind-eq-ok (eval_elems (eval fuel lets) es) _ h in
    subst IsLiteral (ok_inj h1)
      (literal_elems (eval fuel lets) es (λ e u k. eval-IsLiteral fuel lets e u k) elems)
eval-IsLiteral (suc fuel) lets (ident x) v h = elim (Option-cases (get? x lets)) [
  | inl e ↦ absurd (cc (rw (e, eval) at h))
  | inr (d, e) ↦ eval-IsLiteral fuel lets d v (rw (e, eval) at h)
]
eval-IsLiteral (suc fuel) lets (binary op l r) v h =
    let (a, left, h1) = bind-eq-ok (eval fuel lets l) _ h in
    let (b, right, h2) = bind-eq-ok (eval fuel lets r) _ h1 in op-IsLiteral op a b v h2
eval-IsLiteral (suc fuel) lets (ternary c x y) v h =
    let (b, cond, h1) = bind-eq-ok (eval fuel lets c) _ h in
    choose-IsLiteral b (eval fuel lets x) (eval fuel lets y) v
      (λ u k. eval-IsLiteral fuel lets x u k) (λ u k. eval-IsLiteral fuel lets y u k) h1
eval-IsLiteral (suc fuel) lets (call g es) v h = cc
eval-IsLiteral (suc fuel) lets (map_literal m) v h = cc
