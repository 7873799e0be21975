-- ===== src/Devlang/Parser/Levels.antt =====
-- The levels at which the parser reads an expression, and the tokens that end them.
use dotdevops.Prelude.{ℕ, ◌≤◌, ◌<◌, String, refl, List, ◌∷◌, arith}
use dotdevops.Devlang.Ast.{BinaryOp, op_add, op_and, op_or, op_eq, op_neq, Expr, binary}
use dotdevops.Devlang.Lexer.{Token, question, colon}
use dotdevops.Devlang.Parser.{Problem}
use dotdevops.Devlang.Parser.Printed.{token, op_token, level, Fits}
use dotdevops.Devlang.Parser.Read.{
  Stops, Stops-all, Reads0, Reads1, Reads2, Reads3, Reads4, Reads5, lift1, lift2, lift3, lift4,
  lift5,
}

-- A token of an operator does not go on with a level below its own.
pub Stops-op :
    (n : ℕ) (op : BinaryOp) (rest : List Token) → n < level op → Stops n (op_token op ∷ rest)
Stops-op n op_add rest h = record {
  paren = refl;
  concat = λ k. absurd (omega arith);
  equality = λ k. refl;
  conj = λ k. refl;
  disj = λ k. refl;
  branch = λ k. refl;
}
Stops-op n op_eq rest h = record {
  paren = refl;
  concat = λ k. refl;
  equality = λ k. absurd (omega arith);
  conj = λ k. refl;
  disj = λ k. refl;
  branch = λ k. refl;
}
Stops-op n op_neq rest h = record {
  paren = refl;
  concat = λ k. refl;
  equality = λ k. absurd (omega arith);
  conj = λ k. refl;
  disj = λ k. refl;
  branch = λ k. refl;
}
Stops-op n op_and rest h = record {
  paren = refl;
  concat = λ k. refl;
  equality = λ k. refl;
  conj = λ k. absurd (omega arith);
  disj = λ k. refl;
  branch = λ k. refl;
}
Stops-op n op_or rest h = record {
  paren = refl;
  concat = λ k. refl;
  equality = λ k. refl;
  conj = λ k. refl;
  disj = λ k. absurd (omega arith);
  branch = λ k. refl;
}

-- What stands behind the branches of a ternary ends them.
pub Stops-question : (rest : List Token) → Stops 4 (token question "?" ∷ rest)
Stops-question rest = record {
  paren = refl;
  concat = λ k. refl;
  equality = λ k. refl;
  conj = λ k. refl;
  disj = λ k. refl;
  branch = λ k. absurd (omega arith);
}

pub Stops-colon : (rest : List Token) → Stops 5 (token colon ":" ∷ rest)
Stops-colon rest = Stops-all (token colon ":") rest refl refl refl refl refl refl

module _ (atoi : String → ℕ) (digits : ℕ → String) (errors : List Problem) where
  -- An expression that no operator splits is read at every level.
  pub record Reads (e : Expr) : Type 0 where
    pub primary : Reads0 atoi digits errors e
    pub concat : Reads1 atoi digits errors e
    pub equality : Reads2 atoi digits errors e
    pub conj : Reads3 atoi digits errors e
    pub disj : Reads4 atoi digits errors e
    pub expr : Reads5 atoi digits errors e

  pub atom-Reads :
      (e : Expr)
      → ((m n : ℕ) → Fits atoi digits m e → Fits atoi digits n e)
      → Reads0 atoi digits errors e
      → Reads e
  atom-Reads e down r =
      let r1 = lift1 atoi digits errors e (down 1 0) r in
      let r2 = lift2 atoi digits errors e (down 2 1) r1 in
      let r3 = lift3 atoi digits errors e (down 3 2) r2 in
      let r4 = lift4 atoi digits errors e (down 4 3) r3 in
      let r5 = lift5 atoi digits errors e (down 5 4) r4 in
      record { primary = r; concat = r1; equality = r2; conj = r3; disj = r4; expr = r5 }

  -- An expression with an operator of a level is read at that level and above it.
  abbrev Below : ℕ → Expr → Type 0
  Below level e = (n : ℕ) → n < level → Fits atoi digits n e → ⊥

  abbrev Above : ℕ → Expr → Type 0
  Above level e = (m n : ℕ) → level ≤ n → Fits atoi digits m e → Fits atoi digits n e

  pub build4 : (e : Expr) → Below 4 e → Above 4 e → Reads4 atoi digits errors e → Reads e
  build4 e low down r = record {
    primary = λ fits. absurd (low 0 (omega arith) fits);
    concat = λ fits. absurd (low 1 (omega arith) fits);
    equality = λ fits. absurd (low 2 (omega arith) fits);
    conj = λ fits. absurd (low 3 (omega arith) fits);
    disj = r;
    expr = lift5 atoi digits errors e (down 5 4 (omega arith)) r;
  }

  pub build3 : (e : Expr) → Below 3 e → Above 3 e → Reads3 atoi digits errors e → Reads e
  build3 e low down r =
      let r4 = lift4 atoi digits errors e (down 4 3 (omega arith)) r in
      record {
        primary = λ fits. absurd (low 0 (omega arith) fits);
        concat = λ fits. absurd (low 1 (omega arith) fits);
        equality = λ fits. absurd (low 2 (omega arith) fits);
        conj = r;
        disj = r4;
        expr = lift5 atoi digits errors e (down 5 4 (omega arith)) r4;
      }

  pub build2 : (e : Expr) → Below 2 e → Above 2 e → Reads2 atoi digits errors e → Reads e
  build2 e low down r =
      let r3 = lift3 atoi digits errors e (down 3 2 (omega arith)) r in
      let r4 = lift4 atoi digits errors e (down 4 3 (omega arith)) r3 in
      record {
        primary = λ fits. absurd (low 0 (omega arith) fits);
        concat = λ fits. absurd (low 1 (omega arith) fits);
        equality = r;
        conj = r3;
        disj = r4;
        expr = lift5 atoi digits errors e (down 5 4 (omega arith)) r4;
      }

  pub build1 : (e : Expr) → Below 1 e → Above 1 e → Reads1 atoi digits errors e → Reads e
  build1 e low down r =
      let r2 = lift2 atoi digits errors e (down 2 1 (omega arith)) r in
      let r3 = lift3 atoi digits errors e (down 3 2 (omega arith)) r2 in
      let r4 = lift4 atoi digits errors e (down 4 3 (omega arith)) r3 in
      record {
        primary = λ fits. absurd (low 0 (omega arith) fits);
        concat = r;
        equality = r2;
        conj = r3;
        disj = r4;
        expr = lift5 atoi digits errors e (down 5 4 (omega arith)) r4;
      }

  pub Below-binary : (op : BinaryOp) (l r : Expr) → Below (level op) (binary op l r)
  unfolding Fits
  Below-binary op l r n h fits = omega (arith, fits.0)

  pub Above-binary : (op : BinaryOp) (l r : Expr) → Above (level op) (binary op l r)
  unfolding Fits
  Above-binary op l r m n h fits = (h, fits.1, fits.2)
