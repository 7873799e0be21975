-- ===== src/Devlang/Eval/Sound.antt =====
-- The types of literals, and the types of the values that expressions without secrets have.
use Prim.Native.String.{◌++◌}
use dotdevops.Prelude.{
  ℕ, zero, suc, String, ◌≡◌, refl, sym, subst, ◌⊎◌, Bool, true, false, ◌&&◌, ◌||◌, and-eq-true,
  some, [], ◌∷◌, arith, get?, ◌==◌, Bool-cases, Option-cases, inl, inr, if◌then◌else◌,
}
use dotdevops.Devlang.Ast.{
  Expr, Exprs, LetEnv, BinaryOp, ident, str, bool, number, list, binary, ternary, secret, call,
  map_literal, nil, cons, op_add, op_and, op_or, op_eq, op_neq,
}
use dotdevops.Devlang.Comp.{Comp, ok, err, ok_inj, bind-eq-ok}
use dotdevops.Devlang.Types.{
  Ty, string_type, bool_type, list_type, TypeError, list_element, bad_condition, ty_eq, type_check,
  check_op, check_elems, check_branches,
}
use dotdevops.Devlang.Eval.{EvalError, eval, eval_elems, apply_op, choose, eq_values, neq_values}

-- No secret(…) in an expression.
unfoldable mutual
  pub plain : Expr → Bool
  plain (secret k) = false
  plain (list es) = plain_all es
  plain (binary op l r) = plain l && plain r
  plain (ternary c t f) = plain c && (plain t && plain f)
  plain _ = true

  pub plain_all : Exprs → Bool
  plain_all nil = true
  plain_all (cons e es) = plain e && plain_all es

abbrev pub plain_lets : LetEnv → Bool
plain_lets [] = true
plain_lets ((x, e) ∷ lets) = plain e && plain_lets lets

abbrev pub AllStrings : Exprs → Type 0
AllStrings nil = Unit
AllStrings (cons (str s) es) = AllStrings es
AllStrings _ = ⊥

-- The literals of a type.
abbrev pub HasType : Ty → Expr → Type 0
HasType string_type (str s) = Unit
HasType bool_type (bool b) = Unit
HasType list_type (list vs) = AllStrings vs
HasType _ _ = ⊥

plain-get? :
    (x : String) (lets : LetEnv) (e : Expr)
    → plain_lets lets ≡ true
    → get? x lets ≡ some e
    → plain e ≡ true
plain-get? x [] e p h = cc
plain-get? x ((y, d) ∷ lets) e p h = elim (Bool-cases (y == x)) [
  | inl same ↦ let is : d ≡ e = ground arith in subst (λ c. plain c ≡ true) is (ground arith)
  | inr other ↦ plain-get? x lets e (ground arith) (ground arith)
]

string_value : (a : Expr) → HasType string_type a → (s : String) × (a ≡ str s)
string_value (str s) h = (s, refl)
string_value (bool b) h = absurd h
string_value _ h = absurd h

bool_value : (a : Expr) → HasType bool_type a → (b : Bool) × (a ≡ bool b)
bool_value (bool b) h = (b, refl)
bool_value (str s) h = absurd h
bool_value _ h = absurd h

-- The value of an operator on literals of types that the checker accepts has the checker's type.
abbrev pub Yields : Comp EvalError Expr → Ty → Type 0
Yields c t = (v : Expr) × (c ≡ ok v) × HasType t v

-- A literal of one type is one of every type that equals it.
Yields-bool :
    (b : Bool) {t : Ty} → ◌≡◌ {A = Comp TypeError Ty} (ok bool_type) (ok t) → Yields (ok (bool b)) t
Yields-bool b h = (bool b, refl, subst (λ t. HasType t (bool b)) (ok_inj h) tt)

on_strings :
    (op : BinaryOp) (s u : String) {t : Ty}
    → check_op op string_type string_type ≡ ok t
    → Yields (apply_op op (str s) (str u)) t
unfolding check_op apply_op
on_strings op_add s u h = (str (s ++ u), refl, subst (λ t. HasType t (str (s ++ u))) (ok_inj h) tt)
on_strings op_and s u h = cc
on_strings op_or s u h = cc
on_strings op_eq s u h = Yields-bool (eq_values (str s) (str u)) h
on_strings op_neq s u h = Yields-bool (neq_values (str s) (str u)) h

on_bools :
    (op : BinaryOp) (b c : Bool) {t : Ty}
    → check_op op bool_type bool_type ≡ ok t
    → Yields (apply_op op (bool b) (bool c)) t
unfolding check_op apply_op
on_bools op_add b c h = cc
on_bools op_and b c h = Yields-bool (b && c) h
on_bools op_or b c h = Yields-bool (b || c) h
on_bools op_eq b c h = Yields-bool (eq_values (bool b) (bool c)) h
on_bools op_neq b c h = Yields-bool (neq_values (bool b) (bool c)) h

-- Only two strings or two bools are operands.
same_operands :
    (op : BinaryOp) (l r : Ty) {t : Ty}
    → check_op op l r ≡ ok t
    → ((l ≡ string_type) × (r ≡ string_type)) ⊎ ((l ≡ bool_type) × (r ≡ bool_type))
unfolding check_op
same_operands op_add l r h = ground arith
same_operands op l r h = ground arith

apply_op-HasType :
    (op : BinaryOp) (l r : Ty) (a b : Expr) {t : Ty}
    → check_op op l r ≡ ok t
    → HasType l a
    → HasType r b
    → Yields (apply_op op a b) t
apply_op-HasType op l r a b {t} h p q = elim (same_operands op l r h) [
  | inl (el, er) ↦
      let (s, ea) = string_value a (subst (λ k. HasType k a) el p) in
      let (u, eb) = string_value b (subst (λ k. HasType k b) er q) in
      rw (ea, eb) (on_strings op s u (rw (el, er) at h))
  | inr (el, er) ↦
      let (s, ea) = bool_value a (subst (λ k. HasType k a) el p) in
      let (u, eb) = bool_value b (subst (λ k. HasType k b) er q) in
      rw (ea, eb) (on_bools op s u (rw (el, er) at h))
]

element_is_string :
    (t : Ty) (rest : Comp TypeError Ty) {k : Ty}
    → (if ty_eq t string_type then rest else err (list_element t)) ≡ ok k
    → (t ≡ string_type) × (rest ≡ ok k)
element_is_string string_type rest h = (refl, h)
element_is_string bool_type rest h = cc
element_is_string list_type rest h = cc

elems_sound :
    (check : Expr → Comp TypeError Ty) (evaluate : Expr → Comp EvalError Expr) (es : Exprs)
    → ((e : Expr) (t : Ty) → plain e ≡ true → check e ≡ ok t → Yields (evaluate e) t)
    → plain_all es ≡ true
    → check_elems check es ≡ ok list_type
    → (vs : Exprs) × (eval_elems evaluate es ≡ ok vs) × AllStrings vs
unfolding plain check_elems eval_elems
elems_sound check evaluate nil ih p h = (nil, refl, tt)
elems_sound check evaluate (cons e es) ih p h =
    let (pe, ps) = and-eq-true (plain e) (plain_all es) p in
    let (t, he, rest) = bind-eq-ok (check e) _ h in
    let (is, hs) = element_is_string t _ rest in
    let (v, ve, vt) = ih e t pe he in
    let (s, vs) = string_value v (subst (λ k. HasType k v) is vt) in
    let (us, ue, ut) = elems_sound check evaluate es ih ps hs in
    (cons (str s) us, rw (ve, vs, ue) refl, ut)

check_elems-list_type :
    (check : Expr → Comp TypeError Ty) (es : Exprs) {t : Ty}
    → check_elems check es ≡ ok t
    → t ≡ list_type
unfolding check_elems
check_elems-list_type check nil h = cc
check_elems-list_type check (cons e es) h =
    let (t, he, rest) = bind-eq-ok (check e) _ h in
    check_elems-list_type check es (element_is_string t _ rest).1

condition_is_bool :
    (c : Ty) (branches : Comp TypeError Ty) {t : Ty}
    → (if ty_eq c bool_type then branches else err (bad_condition c)) ≡ ok t
    → (c ≡ bool_type) × (branches ≡ ok t)
condition_is_bool bool_type branches h = (refl, h)
condition_is_bool string_type branches h = cc
condition_is_bool list_type branches h = cc

branches_agree : (t f : Ty) {k : Ty} → check_branches t f ≡ ok k → (t ≡ k) × (f ≡ k)
unfolding check_branches
branches_agree string_type string_type h = ground arith
branches_agree bool_type bool_type h = ground arith
branches_agree list_type list_type h = ground arith
branches_agree _ _ h = cc

choose-HasType :
    (b : Bool) (x y : Comp EvalError Expr) (t : Ty)
    → Yields x t
    → Yields y t
    → Yields (choose (bool b) x y) t
unfolding choose
choose-HasType true x y t p q = p
choose-HasType false x y t p q = q

-- On let expressions and an expression without secrets: when the type checker returns a type, the
-- evaluation with the same fuel returns a literal of that type, so none of the errors that the
-- source calls internal is reported.
pub eval_sound :
    (fuel : ℕ) (lets : LetEnv) (e : Expr) (t : Ty)
    → plain_lets lets ≡ true
    → plain e ≡ true
    → type_check fuel lets e ≡ ok t
    → Yields (eval fuel lets e) t
unfolding plain type_check eval
eval_sound zero lets e t pl p h = cc
eval_sound (suc fuel) lets (str s) t pl p h =
    (str s, refl, subst (λ k. HasType k (str s)) (ok_inj h) tt)
eval_sound (suc fuel) lets (ident x) t pl p h = elim (Option-cases (get? x lets)) [
  | inl missing ↦ let wrong = rw (missing, type_check) at h in cc
  | inr (e, found) ↦
      let checked : type_check fuel lets e ≡ ok t = rw (found, type_check) at h in
      rw (found, eval) (eval_sound fuel lets e t pl (plain-get? x lets e pl found) checked)
]
eval_sound (suc fuel) lets (bool b) t pl p h = Yields-bool b h
eval_sound (suc fuel) lets (list es) t pl p h =
    let is = check_elems-list_type (type_check fuel lets) es h in
    let (vs, ev, tv) =
      elems_sound (type_check fuel lets) (eval fuel lets) es (λ e k. eval_sound fuel lets e k pl) p
        (rw is at h) in
    (list vs, rw ev refl, subst (λ k. HasType k (list vs)) (sym is) tv)
eval_sound (suc fuel) lets (binary op l r) t pl p h =
    let (pe, ps) = and-eq-true (plain l) (plain r) p in
    let (lt, hl, rest) = bind-eq-ok (type_check fuel lets l) _ h in
    let (rt, hr, ho) = bind-eq-ok (type_check fuel lets r) _ rest in
    let (a, ea, ta) = eval_sound fuel lets l lt pl pe hl in
    let (b, eb, tb) = eval_sound fuel lets r rt pl ps hr in
    rw (ea, eb) (apply_op-HasType op lt rt a b ho ta tb)
eval_sound (suc fuel) lets (ternary c x y) t pl p h =
    let (pc, pb) = and-eq-true (plain c) (plain x && plain y) p in
    let (px, py) = and-eq-true (plain x) (plain y) pb in
    let (ct, hc, rest) = bind-eq-ok (type_check fuel lets c) _ h in
    let (is, hb) = condition_is_bool ct _ rest in
    let (xt, hx, rest_x) = bind-eq-ok (type_check fuel lets x) _ hb in
    let (yt, hy, agree) = bind-eq-ok (type_check fuel lets y) _ rest_x in
    let (ex, ey) = branches_agree xt yt agree in
    let (cv, ec, tc) = eval_sound fuel lets c bool_type pl pc (rw is at hc) in
    let (b, eb) = bool_value cv tc in
    rw (ec, eb)
      (choose-HasType b (eval fuel lets x) (eval fuel lets y) t
        (eval_sound fuel lets x t pl px (rw ex at hx))
        (eval_sound fuel lets y t pl py (rw ey at hy)))
eval_sound (suc fuel) lets (number n) t pl p h = cc
eval_sound (suc fuel) lets (secret k) t pl p h = cc
eval_sound (suc fuel) lets (call f es) t pl p h = cc
eval_sound (suc fuel) lets (map_literal m) t pl p h = cc
