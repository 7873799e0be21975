-- ===== src/Devlang/Parser/Operators.antt =====
-- Expressions with operators, from what is read of their operands.
use dotdevops.Prelude.{ℕ, String, ◌≡◌, refl, ap, ◌∙◌, none, some, List, ◌∷◌, arith, if◌then◌else◌}
use dotdevops.Devlang.Ast.{BinaryOp, op_add, op_and, op_or, op_eq, op_neq, Expr, binary, ternary}
use dotdevops.Devlang.Lexer.{Token, question, colon}
use dotdevops.Devlang.Parser.{
  Problem, expected_colon, add_error, Parsed, type_of, is_question, is_colon, or_op, and_op,
  equality_op, concat_op, ◌>>=◌, next, parse_expr, parse_branches, parse_or, or_rest, parse_and,
  and_rest, parse_equality, equality_rest, parse_concat, concat_rest, parse_primary,
}
use dotdevops.Devlang.Parser.Printed.{token, op_token, show, last, Fits}
use dotdevops.Devlang.Parser.Read.{
  Eventually, always, spend, chain, at, Stops, Stops-le, shown, whole_concat, whole_and, whole_or,
}
use dotdevops.Devlang.Parser.Levels.{
  Reads, build1, build2, build3, build4, Below-binary, Above-binary, Stops-op, Stops-question,
  Stops-colon,
}

module _ (atoi : String → ℕ) (digits : ℕ → String) (errors : List Problem) where
  add-Reads :
      (l r : Expr)
      → Reads atoi digits errors l
      → Reads atoi digits errors r
      → Reads atoi digits errors (binary op_add l r)
  unfolding show last Fits concat_rest
  add-Reads l r rl rr =
      build1 atoi digits errors (binary op_add l r) (Below-binary atoi digits errors op_add l r)
        (Above-binary atoi digits errors op_add l r)
        λ fits rest stops res cont.
          rl.concat fits.1 (op_token op_add ∷ show atoi digits r rest)
            (Stops-op 0 op_add (show atoi digits r rest) (omega arith)) res
            (spend _ _ (λ f h. h)
              (chain
                (λ f.
                  parse_primary atoi f (type_of (show atoi digits r rest))
                    (shown atoi digits errors r rest))
                (λ f (right, p1).
                  concat_rest atoi f (concat_op (type_of (next p1).tokens)) (binary op_add l right)
                    p1)
                (r, at errors (last atoi digits r ∷ rest)) res (rr.primary fits.2 rest stops) cont))

  equality_step :
      (op : BinaryOp) (l r : Expr)
      → equality_op (op_token op).type ≡ some op
      → concat_op (op_token op).type ≡ none
      → Reads atoi digits errors l
      → Reads atoi digits errors r
      → Fits atoi digits 1 l
      → Fits atoi digits 1 r
      → (rest : List Token) → Stops 0 (op_token op ∷ show atoi digits r rest)
      → Stops 2 rest
      → Eventually (λ f.
        parse_equality atoi f (shown atoi digits errors l (op_token op ∷ show atoi digits r rest))
        ≡ some (binary op l r, at errors (last atoi digits r ∷ rest)))
  unfolding parse_equality equality_rest
  equality_step op l r is other rl rr fl fr rest after stops =
      let behind = op_token op ∷ show atoi digits r rest in
      let p = at errors (last atoi digits l ∷ behind) in
      let res : Parsed = some (binary op l r, at errors (last atoi digits r ∷ rest)) in
      let right : Eventually (λ f. equality_rest atoi f (some op) l p ≡ res) =
        spend _ _ (λ f h. h)
          (chain (λ f. parse_concat atoi f (shown atoi digits errors r rest))
            (λ f (right, p1). some (binary op l right, p1))
            (r, at errors (last atoi digits r ∷ rest)) res
            (whole_concat atoi digits errors r rr.concat fr rest
              (Stops-le 0 2 rest (omega arith) stops) (stops.concat (omega arith)))
            (always _ (λ f. refl))) in
      spend _ _ (λ f h. h)
        (chain (λ f. parse_concat atoi f (shown atoi digits errors l behind))
          (λ f (left, p1). equality_rest atoi f (equality_op (type_of (next p1).tokens)) left p1)
          (l, p) res (whole_concat atoi digits errors l rl.concat fl behind after other)
          (right.0, λ f le. ap (λ o. equality_rest atoi f o l p) is ∙ right.1 f le))

  eq-Reads :
      (l r : Expr)
      → Reads atoi digits errors l
      → Reads atoi digits errors r
      → Reads atoi digits errors (binary op_eq l r)
  unfolding show last Fits
  eq-Reads l r rl rr =
      build2 atoi digits errors (binary op_eq l r) (Below-binary atoi digits errors op_eq l r)
        (Above-binary atoi digits errors op_eq l r)
        λ fits rest stops.
          equality_step op_eq l r refl refl rl rr fits.1 fits.2 rest
            (Stops-op 0 op_eq (show atoi digits r rest) (omega arith)) stops

  neq-Reads :
      (l r : Expr)
      → Reads atoi digits errors l
      → Reads atoi digits errors r
      → Reads atoi digits errors (binary op_neq l r)
  unfolding show last Fits
  neq-Reads l r rl rr =
      build2 atoi digits errors (binary op_neq l r) (Below-binary atoi digits errors op_neq l r)
        (Above-binary atoi digits errors op_neq l r)
        λ fits rest stops.
          equality_step op_neq l r refl refl rl rr fits.1 fits.2 rest
            (Stops-op 0 op_neq (show atoi digits r rest) (omega arith)) stops

  and-Reads :
      (l r : Expr)
      → Reads atoi digits errors l
      → Reads atoi digits errors r
      → Reads atoi digits errors (binary op_and l r)
  unfolding show last Fits and_rest
  and-Reads l r rl rr =
      build3 atoi digits errors (binary op_and l r) (Below-binary atoi digits errors op_and l r)
        (Above-binary atoi digits errors op_and l r)
        λ fits rest stops res cont.
          rl.conj fits.1 (op_token op_and ∷ show atoi digits r rest)
            (Stops-op 2 op_and (show atoi digits r rest) (omega arith)) res
            (spend _ _ (λ f h. h)
              (chain (λ f. parse_equality atoi f (shown atoi digits errors r rest))
                (λ f (right, p1).
                  and_rest atoi f (and_op (type_of (next p1).tokens)) (binary op_and l right) p1)
                (r, at errors (last atoi digits r ∷ rest)) res (rr.equality fits.2 rest stops)
                cont))

  or-Reads :
      (l r : Expr)
      → Reads atoi digits errors l
      → Reads atoi digits errors r
      → Reads atoi digits errors (binary op_or l r)
  unfolding show last Fits or_rest
  or-Reads l r rl rr =
      build4 atoi digits errors (binary op_or l r) (Below-binary atoi digits errors op_or l r)
        (Above-binary atoi digits errors op_or l r)
        λ fits rest stops res cont.
          rl.disj fits.1 (op_token op_or ∷ show atoi digits r rest)
            (Stops-op 3 op_or (show atoi digits r rest) (omega arith)) res
            (spend _ _ (λ f h. h)
              (chain (λ f. parse_and atoi f (shown atoi digits errors r rest))
                (λ f (right, p1).
                  or_rest atoi f (or_op (type_of (next p1).tokens)) (binary op_or l right) p1)
                (r, at errors (last atoi digits r ∷ rest)) res
                (whole_and atoi digits errors r rr.conj fits.2 rest stops) cont))

  pub binary-Reads :
      (op : BinaryOp) (l r : Expr)
      → Reads atoi digits errors l
      → Reads atoi digits errors r
      → Reads atoi digits errors (binary op l r)
  binary-Reads op_add l r rl rr = add-Reads l r rl rr
  binary-Reads op_eq l r rl rr = eq-Reads l r rl rr
  binary-Reads op_neq l r rl rr = neq-Reads l r rl rr
  binary-Reads op_and l r rl rr = and-Reads l r rl rr
  binary-Reads op_or l r rl rr = or-Reads l r rl rr

  pub ternary-Reads :
      (c t e : Expr)
      → Reads atoi digits errors c
      → Reads atoi digits errors t
      → Reads atoi digits errors e
      → Reads atoi digits errors (ternary c t e)
  unfolding show last Fits parse_expr parse_branches
  ternary-Reads c t e rc rt re = record {
    primary = λ fits. absurd (omega (arith, fits.0));
    concat = λ fits. absurd (omega (arith, fits.0));
    equality = λ fits. absurd (omega (arith, fits.0));
    conj = λ fits. absurd (omega (arith, fits.0));
    disj = λ fits. absurd (omega (arith, fits.0));
    expr = λ fits rest stops.
        let behind_t = token colon ":" ∷ show atoi digits e rest in
        let behind_c = token question "?" ∷ show atoi digits t behind_t in
        let res : Parsed = some (ternary c t e, at errors (last atoi digits e ∷ rest)) in
        let pc = at errors (last atoi digits c ∷ behind_c) in
        spend _ _ (λ f h. h)
          (chain (λ f. parse_or atoi f (shown atoi digits errors c behind_c))
            (λ f (x, p1).
              if is_question (type_of (next p1).tokens)
              then parse_branches atoi f x p1
              else some (x, p1))
            (c, pc) res
            (whole_or atoi digits errors c rc.disj fits.1 behind_c
              (Stops-question (show atoi digits t behind_t)))
            (spend _ (λ f. parse_branches atoi f c pc ≡ res) (λ f h. h)
              (chain (λ f. parse_expr atoi f (shown atoi digits errors t behind_t))
                (λ f (x, p1).
                  if is_colon (type_of (next p1).tokens)
                  then (parse_expr atoi f (next (next p1)) >>= λ (y, p2). some (ternary c x y, p2))
                  else some (c, add_error expected_colon p1))
                (t, at errors (last atoi digits t ∷ behind_t)) res
                (rt.expr fits.2 behind_t (Stops-colon (show atoi digits e rest)))
                (chain (λ f. parse_expr atoi f (shown atoi digits errors e rest))
                  (λ f (y, p2). some (ternary c t y, p2)) (e, at errors (last atoi digits e ∷ rest))
                  res (re.expr fits.3 rest stops) (always _ (λ f. refl))))));
  }
