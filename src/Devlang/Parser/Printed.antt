-- ===== src/Devlang/Parser/Printed.antt =====
-- The tokens of an expression, and which expressions the grammar, which has no parentheses, can write.
use dotdevops.Prelude.{ℕ, ◌≤◌, String, ◌≡◌, Bool, true, false, ◌==◌, List, ◌∷◌}
use dotdevops.Devlang.Ast.{
  BinaryOp, op_add, op_and, op_or, op_eq, op_neq, Expr, Exprs, binary, ternary, secret, call,
  map_literal, nil, cons,
}
use dotdevops.Devlang.Lexer.{
  Token, TokenType, eof, string, bool, number, ident, lbracket, rbracket, lparen, rparen, comma,
  plus, ampamp, pipepipe, eqeq, bangeq, question, colon,
}

abbrev pub token : TokenType → String → Token
token type lexeme = record { type = type; lexeme = lexeme; pos = record { line = 1; col = 1 } }

abbrev pub op_token : BinaryOp → Token
op_token op_add = token plus "+"
op_token op_and = token ampamp "&&"
op_token op_or = token pipepipe "||"
op_token op_eq = token eqeq "=="
op_token op_neq = token bangeq "!="

abbrev pub true_or_false : Bool → String
true_or_false true = "true"
true_or_false false = "false"

-- How tightly an operator binds: 1 for the tightest.
abbrev pub level : BinaryOp → ℕ
level op_add = 1
level op_eq = 2
level op_neq = 2
level op_and = 3
level op_or = 4

-- The levels of the operands: == and != do not chain, the others do on the left.
abbrev pub left_level : BinaryOp → ℕ
left_level op_add = 1
left_level op_eq = 1
left_level op_neq = 1
left_level op_and = 3
left_level op_or = 4

abbrev pub right_level : BinaryOp → ℕ
right_level op_add = 0
right_level op_eq = 1
right_level op_neq = 1
right_level op_and = 2
right_level op_or = 3

-- `digits` writes a number; the parser's `atoi` has to read it back.
module _ (atoi : String → ℕ) (digits : ℕ → String) where
  unfoldable mutual
    -- The tokens of an expression, before those of `rest`.
    pub show : Expr → List Token → List Token
    show (Expr.ident x) rest = token ident x ∷ rest
    show (Expr.str s) rest = token string s ∷ rest
    show (Expr.bool b) rest = token bool (true_or_false b) ∷ rest
    show (Expr.number n) rest = token number (digits n) ∷ rest
    show (Expr.list es) rest = token lbracket "[" ∷ show_elems es (token rbracket "]" ∷ rest)
    show (binary op l r) rest = show l (op_token op ∷ show r rest)
    show (ternary c t e) rest = show c (token question "?" ∷ show t (token colon ":" ∷ show e rest))
    show (secret key) rest =
        token ident "secret" ∷ token lparen "(" ∷ token string key ∷ token rparen ")" ∷ rest
    show (call name es) rest =
        token ident name ∷ token lparen "(" ∷ show_elems es (token rparen ")" ∷ rest)
    show (map_literal m) rest = rest

    pub show_elems : Exprs → List Token → List Token
    show_elems nil rest = rest
    show_elems (cons e es) rest = show e (show_more es rest)

    pub show_more : Exprs → List Token → List Token
    show_more nil rest = rest
    show_more (cons e es) rest = token comma "," ∷ show e (show_more es rest)

  -- The last token of an expression.
  unfoldable pub last : Expr → Token
  last (Expr.ident x) = token ident x
  last (Expr.str s) = token string s
  last (Expr.bool b) = token bool (true_or_false b)
  last (Expr.number n) = token number (digits n)
  last (Expr.list es) = token rbracket "]"
  last (binary op l r) = last r
  last (ternary c t e) = last e
  last (secret key) = token rparen ")"
  last (call name es) = token rparen ")"
  last (map_literal m) = token eof ""

  unfoldable mutual
    -- The expression can stand where operators of at most this level may: 5 for any expression.
    pub Fits : ℕ → Expr → Type 0
    Fits n (Expr.ident x) = Unit
    Fits n (Expr.str s) = Unit
    Fits n (Expr.bool b) = Unit
    Fits n (Expr.number k) = atoi (digits k) ≡ k
    Fits n (Expr.list es) = AllFit es
    Fits n (binary op l r) = (level op ≤ n) × Fits (left_level op) l × Fits (right_level op) r
    Fits n (ternary c t e) = (5 ≤ n) × Fits 4 c × Fits 5 t × Fits 5 e
    Fits n (secret key) = Unit
    Fits n (call name es) = ((name == "secret") ≡ false) × AllFit es
    Fits n (map_literal m) = ⊥

    pub AllFit : Exprs → Type 0
    AllFit nil = Unit
    AllFit (cons e es) = Fits 5 e × AllFit es
