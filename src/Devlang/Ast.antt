-- ===== src/Devlang/Ast.antt =====
-- The expressions of internal/devlang/ast.go, without their source positions, which only stand in
-- messages. `number` holds the value of an int literal, which the lexer reads without a sign; the
-- value of a MapLiteral is not looked into.
use dotdevops.Prelude.{ℕ, String, Bool, List}
use dotdevops.Json.{Fields}

pub data BinaryOp : Type 0 where
  op_add op_and op_or op_eq op_neq : BinaryOp

mutual
  pub data Expr : Type 0 where
    ident : String → Expr
    str : String → Expr
    bool : Bool → Expr
    number : ℕ → Expr
    list : Exprs → Expr
    binary : BinaryOp → Expr → Expr → Expr
    ternary : Expr → Expr → Expr → Expr
    secret : String → Expr
    call : String → Exprs → Expr
    map_literal : Fields → Expr

  pub data Exprs : Type 0 where
    nil : Exprs
    cons : Expr → Exprs → Exprs

-- LetEnv
abbrev pub LetEnv : Type 0
LetEnv = List (String × Expr)
