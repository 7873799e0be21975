-- ===== src/Devlang/Parser/Read.antt =====
-- Each precedence of the parser on the tokens of an expression.
pub use dotdevops.Prelude.Fuel.{Eventually, always, spend}
use dotdevops.Prelude.{
  ℕ, zero, suc, ◌+◌, ◌≤◌, String, ◌≡◌, refl, ap, ◌∙◌, false, Option, none, some, List, ◌∷◌, arith,
  if◌then◌else◌,
}
use dotdevops.Devlang.Ast.{Expr}
use dotdevops.Devlang.Lexer.{Token}
use dotdevops.Devlang.Parser.{
  Problem, Parser, Parsed, type_of, is_question, is_lparen, or_op, and_op, equality_op, concat_op,
  ◌>>=◌, next, parse_expr, parse_branches, parse_or, or_rest, parse_and, and_rest, parse_equality,
  equality_rest, parse_concat, concat_rest, parse_primary,
}
use dotdevops.Devlang.Parser.Printed.{show, last, Fits}

-- Both parts of a bind return with enough fuel.
pub chain :
    {A B : Type 0} (g : ℕ → Option A) (k : ℕ → A → Option B) (a : A) (res : Option B)
    → Eventually (λ f. g f ≡ some a)
    → Eventually (λ f. k f a ≡ res)
    → Eventually (λ f. (g f >>= k f) ≡ res)
chain g k a res (m, h) (n, h') =
    (m + n, λ f le. ap (λ o. o >>= k f) (h f (omega arith)) ∙ h' f (omega arith))

abbrev pub at : List Problem → List Token → Parser
at errors tokens = record { tokens = tokens; errors = errors }

-- What comes next does not go on with an expression of at most this level.
pub record Stops (n : ℕ) (rest : List Token) : Type 0 where
  pub paren : is_lparen (type_of rest) ≡ false
  pub concat : 1 ≤ n → concat_op (type_of rest) ≡ none
  pub equality : 2 ≤ n → equality_op (type_of rest) ≡ none
  pub conj : 3 ≤ n → and_op (type_of rest) ≡ none
  pub disj : 4 ≤ n → or_op (type_of rest) ≡ none
  pub branch : 5 ≤ n → is_question (type_of rest) ≡ false

pub Stops-le : (m n : ℕ) (rest : List Token) → m ≤ n → Stops n rest → Stops m rest
Stops-le m n rest le s = record {
  paren = s.paren;
  concat = λ h. s.concat (omega arith);
  equality = λ h. s.equality (omega arith);
  conj = λ h. s.conj (omega arith);
  disj = λ h. s.disj (omega arith);
  branch = λ h. s.branch (omega arith);
}

-- A token that goes on with no expression.
pub Stops-all :
    (t : Token) (rest : List Token)
    → is_lparen t.type ≡ false
    → concat_op t.type ≡ none
    → equality_op t.type ≡ none
    → and_op t.type ≡ none
    → or_op t.type ≡ none
    → is_question t.type ≡ false
    → Stops 5 (t ∷ rest)
Stops-all t rest paren concat equality conj disj branch = record {
  paren = paren;
  concat = λ h. concat;
  equality = λ h. equality;
  conj = λ h. conj;
  disj = λ h. disj;
  branch = λ h. branch;
}

module _ (atoi : String → ℕ) (digits : ℕ → String) (errors : List Problem) where
  abbrev pub done : Expr → List Token → Parsed
  done e rest = some (e, at errors (last atoi digits e ∷ rest))

  abbrev pub shown : Expr → List Token → Parser
  shown e rest = at errors (show atoi digits e rest)

  abbrev pub Reads0 : Expr → Type 0
  Reads0 e =
      Fits atoi digits 0 e
      → (rest : List Token) → Stops 0 rest
      → Eventually (λ f.
        parse_primary atoi f (type_of (show atoi digits e rest)) (shown e rest) ≡ done e rest)

  abbrev pub Reads1 : Expr → Type 0
  Reads1 e =
      Fits atoi digits 1 e
      → (rest : List Token) → Stops 0 rest
      → (res : Parsed)
      → Eventually (λ f.
        concat_rest atoi f (concat_op (type_of rest)) e (at errors (last atoi digits e ∷ rest))
        ≡ res)
      → Eventually (λ f. parse_concat atoi f (shown e rest) ≡ res)

  abbrev pub Reads2 : Expr → Type 0
  Reads2 e =
      Fits atoi digits 2 e
      → (rest : List Token) → Stops 2 rest
      → Eventually (λ f. parse_equality atoi f (shown e rest) ≡ done e rest)

  abbrev pub Reads3 : Expr → Type 0
  Reads3 e =
      Fits atoi digits 3 e
      → (rest : List Token) → Stops 2 rest
      → (res : Parsed)
      → Eventually (λ f.
        and_rest atoi f (and_op (type_of rest)) e (at errors (last atoi digits e ∷ rest)) ≡ res)
      → Eventually (λ f. parse_and atoi f (shown e rest) ≡ res)

  abbrev pub Reads4 : Expr → Type 0
  Reads4 e =
      Fits atoi digits 4 e
      → (rest : List Token) → Stops 3 rest
      → (res : Parsed)
      → Eventually (λ f.
        or_rest atoi f (or_op (type_of rest)) e (at errors (last atoi digits e ∷ rest)) ≡ res)
      → Eventually (λ f. parse_or atoi f (shown e rest) ≡ res)

  abbrev pub Reads5 : Expr → Type 0
  Reads5 e =
      Fits atoi digits 5 e
      → (rest : List Token) → Stops 5 rest
      → Eventually (λ f. parse_expr atoi f (shown e rest) ≡ done e rest)

  pub lift1 : (e : Expr) → (Fits atoi digits 1 e → Fits atoi digits 0 e) → Reads0 e → Reads1 e
  unfolding parse_concat
  lift1 e down r fits rest stops res cont =
      spend _ _ (λ f h. h)
        (chain (λ f. parse_primary atoi f (type_of (show atoi digits e rest)) (shown e rest))
          (λ f (left, p1). concat_rest atoi f (concat_op (type_of (next p1).tokens)) left p1)
          (e, at errors (last atoi digits e ∷ rest)) res (r (down fits) rest stops) cont)

  -- A loop that finds no operator ends.
  concat_rest-none : (f : ℕ) (e : Expr) (p : Parser) → concat_rest atoi f none e p ≡ some (e, p)
  unfolding concat_rest
  concat_rest-none zero e p = refl
  concat_rest-none (suc f) e p = refl

  equality_rest-none : (f : ℕ) (e : Expr) (p : Parser) → equality_rest atoi f none e p ≡ some (e, p)
  unfolding equality_rest
  equality_rest-none zero e p = refl
  equality_rest-none (suc f) e p = refl

  and_rest-none : (f : ℕ) (e : Expr) (p : Parser) → and_rest atoi f none e p ≡ some (e, p)
  unfolding and_rest
  and_rest-none zero e p = refl
  and_rest-none (suc f) e p = refl

  or_rest-none : (f : ℕ) (e : Expr) (p : Parser) → or_rest atoi f none e p ≡ some (e, p)
  unfolding or_rest
  or_rest-none zero e p = refl
  or_rest-none (suc f) e p = refl

  -- A loop reads an expression whole where nothing goes on with it.
  pub whole_concat :
      (e : Expr)
      → Reads1 e
      → Fits atoi digits 1 e
      → (rest : List Token) → Stops 0 rest
      → concat_op (type_of rest) ≡ none
      → Eventually (λ f. parse_concat atoi f (shown e rest) ≡ done e rest)
  whole_concat e r fits rest stops ends = r fits rest stops (done e rest) (
      always _ (λ f.
        ap (λ o. concat_rest atoi f o e (at errors (last atoi digits e ∷ rest))) ends
        ∙ concat_rest-none f e (at errors (last atoi digits e ∷ rest))))

  pub whole_and :
      (e : Expr)
      → Reads3 e
      → Fits atoi digits 3 e
      → (rest : List Token) → Stops 3 rest
      → Eventually (λ f. parse_and atoi f (shown e rest) ≡ done e rest)
  whole_and e r fits rest stops =
      r fits rest (Stops-le 2 3 rest (omega arith) stops) (done e rest) (
        always _ (λ f.
          ap (λ o. and_rest atoi f o e (at errors (last atoi digits e ∷ rest)))
            (stops.conj (omega arith))
          ∙ and_rest-none f e (at errors (last atoi digits e ∷ rest))))

  pub whole_or :
      (e : Expr)
      → Reads4 e
      → Fits atoi digits 4 e
      → (rest : List Token) → Stops 4 rest
      → Eventually (λ f. parse_or atoi f (shown e rest) ≡ done e rest)
  whole_or e r fits rest stops = r fits rest (Stops-le 3 4 rest (omega arith) stops) (done e rest) (
      always _ (λ f.
        ap (λ o. or_rest atoi f o e (at errors (last atoi digits e ∷ rest)))
          (stops.disj (omega arith))
        ∙ or_rest-none f e (at errors (last atoi digits e ∷ rest))))

  pub lift2 : (e : Expr) → (Fits atoi digits 2 e → Fits atoi digits 1 e) → Reads1 e → Reads2 e
  unfolding parse_equality
  lift2 e down r fits rest stops =
      let p = at errors (last atoi digits e ∷ rest) in
      spend _ _ (λ f h. h)
        (chain (λ f. parse_concat atoi f (shown e rest))
          (λ f (left, p1). equality_rest atoi f (equality_op (type_of (next p1).tokens)) left p1)
          (e, p) (done e rest)
          (whole_concat e r (down fits) rest (Stops-le 0 2 rest (omega arith) stops)
            (stops.concat (omega arith)))
          (always _ (λ f.
            ap (λ o. equality_rest atoi f o e p) (stops.equality (omega arith))
            ∙ equality_rest-none f e p)))

  pub lift3 : (e : Expr) → (Fits atoi digits 3 e → Fits atoi digits 2 e) → Reads2 e → Reads3 e
  unfolding parse_and
  lift3 e down r fits rest stops res cont =
      spend _ _ (λ f h. h)
        (chain (λ f. parse_equality atoi f (shown e rest))
          (λ f (left, p1). and_rest atoi f (and_op (type_of (next p1).tokens)) left p1)
          (e, at errors (last atoi digits e ∷ rest)) res (r (down fits) rest stops) cont)

  pub lift4 : (e : Expr) → (Fits atoi digits 4 e → Fits atoi digits 3 e) → Reads3 e → Reads4 e
  unfolding parse_or
  lift4 e down r fits rest stops res cont =
      spend _ _ (λ f h. h)
        (chain (λ f. parse_and atoi f (shown e rest))
          (λ f (left, p1). or_rest atoi f (or_op (type_of (next p1).tokens)) left p1)
          (e, at errors (last atoi digits e ∷ rest)) res (whole_and e r (down fits) rest stops)
          cont)

  pub lift5 : (e : Expr) → (Fits atoi digits 5 e → Fits atoi digits 4 e) → Reads4 e → Reads5 e
  unfolding parse_expr
  lift5 e down r fits rest stops =
      let p = at errors (last atoi digits e ∷ rest) in
      spend _ _ (λ f h. h)
        (chain (λ f. parse_or atoi f (shown e rest))
          (λ f (c, p1).
            if is_question (type_of (next p1).tokens)
            then parse_branches atoi f c p1
            else some (c, p1))
          (e, p) (done e rest)
          (whole_or e r (down fits) rest (Stops-le 4 5 rest (omega arith) stops))
          (always _ (λ f.
            ap (λ b. if b then parse_branches atoi f e p else some (e, p))
              (stops.branch (omega arith)))))
