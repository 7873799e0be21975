-- ===== src/Devlang/Tests.antt =====
-- Plans with lets, and what the type checker and the evaluation make of them.
use dotdevops.Prelude.{
  ℕ, ◌≤◌, ◌≡◌, refl, subst, false, [], ◌∷◌, arith, Map, ◌==◌, Bool-cases, inl, inr,
}
use dotdevops.Devlang.Ast.{
  Expr, LetEnv, ident, str, bool, binary, ternary, secret, op_add, op_eq, op_neq,
}
use dotdevops.Devlang.Comp.{ok, err, Returned}
use dotdevops.Devlang.Types.{string_type, type_check, check_op, check_branches}
use dotdevops.Devlang.Eval.{operands_not_strings, eval, eval_elems, choose, apply_op}
use dotdevops.Devlang.Eval.Sound.{plain, Yields, eval_sound}
use dotdevops.Devlang.Eval.Depth.{Ranked, Below, depth, type_check-Returned}

abbrev lets : LetEnv
lets = ("root", str "/srv") ∷ []

-- `root == "/srv" ? root + "/app" : "none"`
abbrev path : Expr
path =
    ternary (binary op_eq (ident "root") (str "/srv")) (binary op_add (ident "root") (str "/app"))
      (str "none")

eval-path : eval 5 lets path ≡ ok (str "/srv/app")
unfolding eval eval_elems choose apply_op
eval-path = refl

eval_sound_example : Yields (eval 5 lets path) string_type
unfolding type_check check_op check_branches plain
eval_sound_example = eval_sound 5 lets path string_type refl refl refl

abbrev ranks : Map ℕ
ranks x = 0

lets-Ranked : Ranked ranks 1 lets
unfolding Below depth
lets-Ranked x e h = elim (Bool-cases ("root" == x)) [
  | inl y ↦
      let is : str "/srv" ≡ e = ground arith in
      subst (λ k. Below ranks 0 k × (depth k ≤ 1)) is (tt, omega arith)
  | inr n ↦ absurd (ground arith)
]

type_check-Returned_example : Returned (type_check 10 lets path)
unfolding Below depth
type_check-Returned_example =
    type_check-Returned ranks 1 1 10 lets path lets-Ranked
      ((omega arith, tt), (omega arith, tt), tt) (omega arith)

-- A secret passes the type checker as a string, and is no operand of the evaluation.
secret_operand :
    (type_check 3 [] (binary op_add (str "key=") (secret "K")) ≡ ok string_type)
    × (eval 3 [] (binary op_add (str "key=") (secret "K")) ≡ err operands_not_strings)
    × (eval 3 [] (binary op_eq (secret "K") (secret "K")) ≡ ok (bool false))
    × (eval 3 [] (binary op_neq (secret "K") (str "")) ≡ ok (bool false))
unfolding type_check check_op eval apply_op
secret_operand = (refl, refl, refl, refl)
