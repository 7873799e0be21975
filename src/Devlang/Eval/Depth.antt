-- ===== src/Devlang/Eval/Depth.antt =====
-- The fuel that the type checker takes, by the depth of an expression and the ranks of the lets.
use dotdevops.Prelude.{
  ℕ, zero, suc, ◌+◌, ◌≤◌, ◌<◌, String, ◌≡◌, refl, some, arith, get?, Map, Option-cases, inl, inr,
}
use dotdevops.Devlang.Ast.{
  Expr, Exprs, LetEnv, BinaryOp, ident, str, bool, number, list, binary, ternary, secret, call,
  map_literal, nil, cons, op_add, op_and, op_or, op_eq, op_neq,
}
use dotdevops.Devlang.Comp.{Comp, ◌>>=◌, err, no_fuel, Returned, Returned-bind, Returned-if}
use dotdevops.Devlang.Types.{
  Ty, string_type, TypeError, list_element, type_check, check_op, check_elems, check_branches,
  ty_eq,
}

unfoldable mutual
  pub depth : Expr → ℕ
  depth (list es) = suc (depth_all es)
  depth (binary op l r) = suc (depth l + depth r)
  depth (ternary c t f) = suc (depth c + (depth t + depth f))
  depth _ = 1

  pub depth_all : Exprs → ℕ
  depth_all nil = 0
  depth_all (cons e es) = depth e + depth_all es

-- The names that the expression reads have ranks below r.
unfoldable mutual
  pub Below : Map ℕ → ℕ → Expr → Type 0
  Below rank r (ident x) = rank x < r
  Below rank r (list es) = AllBelow rank r es
  Below rank r (binary op a b) = Below rank r a × Below rank r b
  Below rank r (ternary c t f) = Below rank r c × Below rank r t × Below rank r f
  Below rank r _ = Unit

  pub AllBelow : Map ℕ → ℕ → Exprs → Type 0
  AllBelow rank r nil = Unit
  AllBelow rank r (cons e es) = Below rank r e × AllBelow rank r es

-- Each let reads names of lower ranks only, and its expression is at most d deep.
abbrev pub Ranked : Map ℕ → ℕ → LetEnv → Type 0
Ranked rank d lets =
    (x : String) (e : Expr) → get? x lets ≡ some e → Below rank (rank x) e × (depth e ≤ d)

-- Fuel for names of ranks below r.
abbrev pub budget : ℕ → ℕ → ℕ
budget d zero = 0
budget d (suc r) = suc d + budget d r

budget_mono : (d q r : ℕ) → q < r → suc d + budget d q ≤ budget d r
budget_mono d q zero h = absurd (omega arith)
budget_mono d zero (suc r) h = omega arith
budget_mono d (suc q) (suc r) h = omega (arith, budget_mono d q r)

check_op-Returned : (op : BinaryOp) (l r : Ty) → Returned (check_op op l r)
unfolding check_op
check_op-Returned op_add l r = search Returned-if
check_op-Returned op_and l r = search Returned-if
check_op-Returned op_or l r = search Returned-if
check_op-Returned op_eq l r = search Returned-if
check_op-Returned op_neq l r = search Returned-if

check_branches-Returned : (t f : Ty) → Returned (check_branches t f)
unfolding check_branches
check_branches-Returned t f = search Returned-if

check_elems-Returned :
    (check : Expr → Comp TypeError Ty) (rank : Map ℕ) (r n : ℕ) (es : Exprs)
    → ((e : Expr) → Below rank r e → depth e ≤ n → Returned (check e))
    → AllBelow rank r es
    → depth_all es ≤ n
    → Returned (check_elems check es)
unfolding check_elems Below depth
check_elems-Returned check rank r n nil ih b h = tt
check_elems-Returned check rank r n (cons e es) ih b h =
    Returned-bind (check e) _ (ih e b.0 (omega arith)) (λ t.
      Returned-if (ty_eq t string_type) (check_elems check es) (err (list_element t))
        (check_elems-Returned check rank r n es ih b.1 (omega arith)) tt)

depth_pos : (e : Expr) → 0 < depth e
unfolding depth
depth_pos (ident x) = omega arith
depth_pos (list es) = omega arith
depth_pos (binary op a b) = omega arith
depth_pos (ternary c t f) = omega arith
depth_pos _ = omega arith

-- When the lets are ranked, the type checker returns a type or an error, given fuel for the depth
-- of the expression and for one let of each rank that it can reach.
pub type_check-Returned :
    (rank : Map ℕ) (d r fuel : ℕ) (lets : LetEnv) (e : Expr)
    → Ranked rank d lets
    → Below rank r e
    → depth e + budget d r ≤ fuel
    → Returned (type_check fuel lets e)
unfolding type_check check_branches Below depth
type_check-Returned rank d r zero lets e h b f = absurd (omega (arith, depth_pos e))
type_check-Returned rank d r (suc fuel) lets (str s) h b f = tt
type_check-Returned rank d r (suc fuel) lets (bool c) h b f = tt
type_check-Returned rank d r (suc fuel) lets (number n) h b f = tt
type_check-Returned rank d r (suc fuel) lets (secret k) h b f = tt
type_check-Returned rank d r (suc fuel) lets (call g es) h b f = tt
type_check-Returned rank d r (suc fuel) lets (map_literal m) h b f = tt
type_check-Returned rank d r (suc fuel) lets (list es) h b f =
    check_elems-Returned (type_check fuel lets) rank r (depth_all es) es
      (λ e be l. type_check-Returned rank d r fuel lets e h be (omega arith)) b (omega arith)
type_check-Returned rank d r (suc fuel) lets (binary op x y) h b f =
    Returned-bind (type_check fuel lets x) _
      (type_check-Returned rank d r fuel lets x h b.0 (omega arith))
      (λ s.
        Returned-bind (type_check fuel lets y) _
          (type_check-Returned rank d r fuel lets y h b.1 (omega arith)) (check_op-Returned op s))
type_check-Returned rank d r (suc fuel) lets (ternary c x y) h b f =
    Returned-bind (type_check fuel lets c) _
      (type_check-Returned rank d r fuel lets c h b.0 (omega arith))
      (λ s.
        let branches : Returned (
            ◌>>=◌ {E = TypeError} (type_check fuel lets x)
              (λ u. type_check fuel lets y >>= check_branches u)) =
          Returned-bind (type_check fuel lets x) _
            (type_check-Returned rank d r fuel lets x h b.1 (omega arith))
            (λ u.
              Returned-bind (type_check fuel lets y) _
                (type_check-Returned rank d r fuel lets y h b.2 (omega arith))
                (check_branches-Returned u)) in
        search Returned-if)
type_check-Returned rank d r (suc fuel) lets (ident x) h b f = elim (Option-cases (get? x lets)) [
  | inl missing ↦ rw (missing, type_check) tt
  | inr (e, found) ↦
      let (be, le) = h x e found in
      rw (found, type_check)
        (type_check-Returned rank d (rank x) fuel lets e h be
          (omega (arith, budget_mono d (rank x) r b)))
]

-- A let that names itself: no fuel is enough.
pub type_check-self_reference :
    (fuel : ℕ) (lets : LetEnv) (x : String)
    → get? x lets ≡ some (ident x)
    → (type_check fuel lets (ident x) ≡ no_fuel)
unfolding type_check
type_check-self_reference zero lets x h = refl
type_check-self_reference (suc fuel) lets x h =
    rw (h, type_check) (type_check-self_reference fuel lets x h)
