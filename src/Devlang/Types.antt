-- ===== src/Devlang/Types.antt =====
-- internal/devlang/types.go: the type of an expression. A let is looked up and its expression
-- checked again, so the depth of the calls is not bounded by the expression: `fuel` bounds it.
use dotdevops.Prelude.{
  ℕ, zero, suc, String, Bool, true, false, not, ◌||◌, none, some, get?, if◌then◌else◌,
}
use dotdevops.Devlang.Ast.{
  Expr, Exprs, LetEnv, BinaryOp, ident, str, bool, number, list, binary, ternary, secret, call,
  map_literal, nil, cons, op_add, op_eq, op_neq,
}
use dotdevops.Devlang.Comp.{Comp, ok, err, no_fuel, ◌>>=◌}

-- `Type` of the source
pub data Ty : Type 0 where
  string_type bool_type list_type : Ty

abbrev pub ty_eq : Ty → Ty → Bool
ty_eq string_type string_type = true
ty_eq bool_type bool_type = true
ty_eq list_type list_type = true
ty_eq _ _ = false

-- The messages of the type errors.
pub data TypeError : Type 0 where
  list_element : Ty → TypeError
  unresolved : String → TypeError
  bad_operands : BinaryOp → Ty → Ty → TypeError
  not_comparable : BinaryOp → Ty → Ty → TypeError
  list_comparison : TypeError
  bad_condition : Ty → TypeError
  branches_differ : Ty → Ty → TypeError
  unsupported : TypeError

-- the switch on the operator
unfoldable pub check_op : BinaryOp → Ty → Ty → Comp TypeError Ty
check_op op_add l r =
    if not (ty_eq l string_type) || not (ty_eq r string_type)
    then err (bad_operands op_add l r)
    else ok string_type
check_op op_eq l r =
    if not (ty_eq l r)
    then err (not_comparable op_eq l r)
    else if ty_eq l list_type
    then err list_comparison
    else ok bool_type
check_op op_neq l r =
    if not (ty_eq l r)
    then err (not_comparable op_neq l r)
    else if ty_eq l list_type
    then err list_comparison
    else ok bool_type
check_op op l r =
    if not (ty_eq l bool_type) || not (ty_eq r bool_type)
    then err (bad_operands op l r)
    else ok bool_type

-- the loop over the elements of a list; `check` is typeCheckExpr
unfoldable pub check_elems : (Expr → Comp TypeError Ty) → Exprs → Comp TypeError Ty
check_elems check nil = ok list_type
check_elems check (cons e es) = check e >>= λ t.
    let rest = check_elems check es in if ty_eq t string_type then rest else err (list_element t)

unfoldable pub check_branches : Ty → Ty → Comp TypeError Ty
check_branches t f = if ty_eq t f then ok t else err (branches_differ t f)

-- typeCheckExpr
unfoldable pub type_check : ℕ → LetEnv → Expr → Comp TypeError Ty
unfolding check_op check_elems check_branches
type_check zero lets e = no_fuel
type_check (suc fuel) lets (str s) = ok string_type
type_check (suc fuel) lets (bool b) = ok bool_type
type_check (suc fuel) lets (secret k) = ok string_type
type_check (suc fuel) lets (list es) = check_elems (type_check fuel lets) es
type_check (suc fuel) lets (ident x) = elim (get? x lets) [
  | none ↦ err (unresolved x)
  | some e ↦ type_check fuel lets e
]
type_check (suc fuel) lets (binary op l r) =
    type_check fuel lets l >>= λ lt. type_check fuel lets r >>= λ rt. check_op op lt rt
type_check (suc fuel) lets (ternary c t f) = type_check fuel lets c >>= λ ct.
    let branches =
      type_check fuel lets t >>= λ tt'. type_check fuel lets f >>= λ ft. check_branches tt' ft in
    if ty_eq ct bool_type then branches else err (bad_condition ct)
type_check (suc fuel) lets (number n) = err unsupported
type_check (suc fuel) lets (call f es) = err unsupported
type_check (suc fuel) lets (map_literal m) = err unsupported
