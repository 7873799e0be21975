-- ===== src/Devlang/Eval.antt =====
-- internal/devlang/eval.go: the literal that an expression stands for.
pub mod Sound
pub mod Depth
pub mod Literal
use Prim.Native.String.{◌++◌}
use dotdevops.Prelude.{
  ℕ, zero, suc, String, Bool, true, false, not, ◌&&◌, ◌||◌, ◌==◌, Option, none, some, get?,
  if◌then◌else◌,
}
use dotdevops.Devlang.Ast.{
  Expr, Exprs, LetEnv, BinaryOp, ident, str, bool, number, list, binary, ternary, secret, call,
  map_literal, nil, cons, op_add, op_and, op_or, op_eq, op_neq,
}
use dotdevops.Devlang.Comp.{Comp, ok, err, no_fuel, ◌>>=◌}

-- The messages of the evaluation errors; the first three are "internal error: …".
pub data EvalError : Type 0 where
  operands_not_strings : EvalError
  operands_not_bools : BinaryOp → EvalError
  condition_not_bool : EvalError
  unresolved : String → EvalError
  unsupported : EvalError

abbrev same_bool : Bool → Bool → Bool
same_bool true b = b
same_bool false b = not b

-- Each operator is a case over the literals of the operands.
unfoldable pub add_values : Expr → Expr → Comp EvalError Expr
add_values (str a) (str b) = ok (str (a ++ b))
add_values _ _ = err operands_not_strings

unfoldable pub and_values : Expr → Expr → Comp EvalError Expr
and_values (bool a) (bool b) = ok (bool (a && b))
and_values _ _ = err (operands_not_bools op_and)

unfoldable pub or_values : Expr → Expr → Comp EvalError Expr
or_values (bool a) (bool b) = ok (bool (a || b))
or_values _ _ = err (operands_not_bools op_or)

unfoldable pub eq_values : Expr → Expr → Bool
eq_values (str a) (str b) = a == b
eq_values (bool a) (bool b) = same_bool a b
eq_values _ _ = false

unfoldable pub neq_values : Expr → Expr → Bool
neq_values (str a) (str b) = not (a == b)
neq_values (bool a) (bool b) = not (same_bool a b)
neq_values _ _ = false

unfoldable pub apply_op : BinaryOp → Expr → Expr → Comp EvalError Expr
unfolding add_values and_values or_values eq_values neq_values
apply_op op_add l r = add_values l r
apply_op op_and l r = and_values l r
apply_op op_or l r = or_values l r
apply_op op_eq l r = ok (bool (eq_values l r))
apply_op op_neq l r = ok (bool (neq_values l r))

-- the loop over the elements of a list; `evaluate` is evaluateExpr
unfoldable pub eval_elems : (Expr → Comp EvalError Expr) → Exprs → Comp EvalError Exprs
eval_elems evaluate nil = ok nil
eval_elems evaluate (cons e es) =
    evaluate e >>= λ v. eval_elems evaluate es >>= λ vs. ok (cons v vs)

-- the two branches are computations that wait
unfoldable pub choose : Expr → Comp EvalError Expr → Comp EvalError Expr → Comp EvalError Expr
choose (bool true) t f = t
choose (bool false) t f = f
choose _ t f = err condition_not_bool

-- evaluateExpr
unfoldable pub eval : ℕ → LetEnv → Expr → Comp EvalError Expr
unfolding apply_op eval_elems choose
eval zero lets e = no_fuel
eval (suc fuel) lets (str s) = ok (str s)
eval (suc fuel) lets (bool b) = ok (bool b)
eval (suc fuel) lets (number n) = ok (number n)
eval (suc fuel) lets (secret k) = ok (secret k)
eval (suc fuel) lets (list es) = eval_elems (eval fuel lets) es >>= λ vs. ok (list vs)
eval (suc fuel) lets (ident x) = elim (get? x lets) [
  | none ↦ err (unresolved x)
  | some e ↦ eval fuel lets e
]
eval (suc fuel) lets (binary op l r) =
    eval fuel lets l >>= λ lv. eval fuel lets r >>= λ rv. apply_op op lv rv
eval (suc fuel) lets (ternary c t f) =
    let on_true = eval fuel lets t in
    let on_false = eval fuel lets f in eval fuel lets c >>= λ cv. choose cv on_true on_false
eval (suc fuel) lets (call f es) = err unsupported
eval (suc fuel) lets (map_literal m) = err unsupported
