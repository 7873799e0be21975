-- ===== src/Devlang/Parser.antt =====
-- The expressions of internal/devlang/parser.go: parseExpr and what it calls. The state is the list of
-- the tokens from `cur` on, behind which the lexer returns EOF for ever, and the errors so far.
-- strconv.Atoi is a parameter.
pub mod Printed
pub mod Read
pub mod Levels
pub mod Operators
pub mod Atoms
pub mod RoundTrip
pub mod Tests
use dotdevops.Prelude.{
  ℕ, zero, suc, String, Bool, true, false, not, ◌&&◌, ◌||◌, ◌==◌, Option, none, some, List, [], ◌∷◌,
  ◌++◌, if◌then◌else◌,
}
use dotdevops.Devlang.Ast.{
  BinaryOp, op_add, op_and, op_or, op_eq, op_neq, Expr, Exprs, binary, ternary, secret, call, nil,
  cons,
}
use dotdevops.Devlang.Lexer.{
  Token, TokenType, eof, string, bool, number, ident, lbracket, rbracket, lparen, rparen, comma,
  plus, ampamp, pipepipe, eqeq, bangeq, question, colon,
}

pub data Problem : Type 0 where
  expected_colon unexpected_token expected_key expected_rparen_of_secret : Problem
  expected_rparen unterminated_list : Problem

pub record Parser : Type 0 where
  pub tokens : List Token
  pub errors : List Problem

abbrev pub tail : List Token → List Token
tail [] = []
tail (t ∷ ts) = ts

abbrev pub type_of : List Token → TokenType
type_of [] = eof
type_of (t ∷ ts) = t.type

abbrev pub lexeme_of : List Token → String
lexeme_of [] = ""
lexeme_of (t ∷ ts) = t.lexeme

abbrev pub cur : Parser → TokenType
cur p = type_of p.tokens

abbrev pub peek : Parser → TokenType
peek p = type_of (tail p.tokens)

-- nextToken
abbrev pub next : Parser → Parser
next p = record p { tokens = tail p.tokens }

-- addError
abbrev pub add_error : Problem → Parser → Parser
add_error e p = record p { errors = p.errors ++ e ∷ [] }

abbrev pub is_question : TokenType → Bool
is_question question = true
is_question t = false

abbrev pub is_colon : TokenType → Bool
is_colon colon = true
is_colon t = false

abbrev pub is_lparen : TokenType → Bool
is_lparen lparen = true
is_lparen t = false

abbrev pub is_comma : TokenType → Bool
is_comma comma = true
is_comma t = false

-- The token that ends a list.
abbrev pub is_rbracket : TokenType → Bool
is_rbracket rbracket = true
is_rbracket t = false

abbrev pub is_rparen : TokenType → Bool
is_rparen rparen = true
is_rparen t = false

abbrev pub ends_list : (TokenType → Bool) → TokenType → Bool
ends_list close eof = true
ends_list close t = close t

-- The operator that a loop of one precedence goes on with.
abbrev pub or_op : TokenType → Option BinaryOp
or_op pipepipe = some op_or
or_op t = none

abbrev pub and_op : TokenType → Option BinaryOp
and_op ampamp = some op_and
and_op t = none

abbrev pub equality_op : TokenType → Option BinaryOp
equality_op eqeq = some op_eq
equality_op bangeq = some op_neq
equality_op t = none

abbrev pub concat_op : TokenType → Option BinaryOp
concat_op plus = some op_add
concat_op t = none

infixl 5 ◌>>=◌
abbrev pub ◌>>=◌ {ℓ κ} : {A : Type ℓ} {B : Type κ} → Option A → (A → Option B) → Option B
none >>= f = none
some a >>= f = f a

abbrev pub Parsed : Type 0
Parsed = Option (Expr × Parser)

-- the part of parseSecretRef behind `(`
abbrev pub secret_key : TokenType → Parser → Expr × Parser
secret_key string p =
    let q = next p in
    (
      secret (lexeme_of p.tokens),
      if is_rparen (cur q) then q else add_error expected_rparen_of_secret q,
    )
secret_key t p = (secret "", add_error expected_key p)

abbrev pub closing : (TokenType → Bool) → Problem → (Exprs → Expr) → Exprs × Parser → Parsed
closing close problem f (es, p) = some (f es, if close (cur p) then p else add_error problem p)

abbrev pub skip_comma : Parser → Parser
skip_comma p = if is_comma (cur p) then next p else p

module _ (atoi : String → ℕ) where
  -- Each call costs a unit of fuel; none means that it ran out.
  unfoldable mutual
    -- parseExpr and parseTernary
    pub parse_expr : ℕ → Parser → Parsed
    parse_expr zero p = none
    parse_expr (suc f) p = parse_or f p >>= λ (c, p1).
        if is_question (peek p1) then parse_branches f c p1 else some (c, p1)

    -- parseTernary from `?` on
    pub parse_branches : ℕ → Expr → Parser → Parsed
    parse_branches zero c p = none
    parse_branches (suc f) c p = parse_expr f (next (next p)) >>= λ (t, p1).
        if is_colon (peek p1)
        then (parse_expr f (next (next p1)) >>= λ (e, p2). some (ternary c t e, p2))
        else some (c, add_error expected_colon p1)

    -- parseLogicalOr
    pub parse_or : ℕ → Parser → Parsed
    parse_or zero p = none
    parse_or (suc f) p = parse_and f p >>= λ (left, p1). or_rest f (or_op (peek p1)) left p1

    pub or_rest : ℕ → Option BinaryOp → Expr → Parser → Parsed
    or_rest f none left p = some (left, p)
    or_rest zero (some op) left p = none
    or_rest (suc f) (some op) left p = parse_and f (next (next p)) >>= λ (right, p1).
        or_rest f (or_op (peek p1)) (binary op left right) p1

    -- parseLogicalAnd
    pub parse_and : ℕ → Parser → Parsed
    parse_and zero p = none
    parse_and (suc f) p = parse_equality f p >>= λ (left, p1). and_rest f (and_op (peek p1)) left p1

    pub and_rest : ℕ → Option BinaryOp → Expr → Parser → Parsed
    and_rest f none left p = some (left, p)
    and_rest zero (some op) left p = none
    and_rest (suc f) (some op) left p = parse_equality f (next (next p)) >>= λ (right, p1).
        and_rest f (and_op (peek p1)) (binary op left right) p1

    -- parseEquality
    pub parse_equality : ℕ → Parser → Parsed
    parse_equality zero p = none
    parse_equality (suc f) p =
        parse_concat f p >>= λ (left, p1). equality_rest f (equality_op (peek p1)) left p1

    pub equality_rest : ℕ → Option BinaryOp → Expr → Parser → Parsed
    equality_rest f none left p = some (left, p)
    equality_rest zero (some op) left p = none
    equality_rest (suc f) (some op) left p =
        parse_concat f (next (next p)) >>= λ (right, p1). some (binary op left right, p1)

    -- parseConcat
    pub parse_concat : ℕ → Parser → Parsed
    parse_concat zero p = none
    parse_concat (suc f) p =
        parse_primary f (cur p) p >>= λ (left, p1). concat_rest f (concat_op (peek p1)) left p1

    pub concat_rest : ℕ → Option BinaryOp → Expr → Parser → Parsed
    concat_rest f none left p = some (left, p)
    concat_rest zero (some op) left p = none
    concat_rest (suc f) (some op) left p =
        let q = next (next p) in
        parse_primary f (cur q) q >>= λ (right, p1).
        concat_rest f (concat_op (peek p1)) (binary op left right) p1

    -- parsePrimary, with the type of `cur`
    pub parse_primary : ℕ → TokenType → Parser → Parsed
    parse_primary zero t p = none
    parse_primary (suc f) string p = some (Expr.str (lexeme_of p.tokens), p)
    parse_primary (suc f) bool p = some (Expr.bool (lexeme_of p.tokens == "true"), p)
    parse_primary (suc f) number p = some (Expr.number (atoi (lexeme_of p.tokens)), p)
    parse_primary (suc f) ident p = parse_name f (is_lparen (peek p)) (lexeme_of p.tokens) p
    parse_primary (suc f) lbracket p =
        parse_elems f is_rbracket (next p) >>= closing is_rbracket unterminated_list Expr.list
    parse_primary (suc f) t p = some (Expr.str "", add_error unexpected_token p)

    -- the case IDENT; the flag tells whether `(` is next
    pub parse_name : ℕ → Bool → String → Parser → Parsed
    parse_name zero next name p = none
    parse_name (suc f) false name p = some (Expr.ident name, p)
    parse_name (suc f) true name p =
        let args =
          parse_elems f is_rparen (next (next p))
          >>= closing is_rparen expected_rparen (call name) in
        if name == "secret" then some (secret_key (cur (next (next p))) (next (next p))) else args

    -- the loops of parseListLiteral and parseFunctionCall
    pub parse_elems : ℕ → (TokenType → Bool) → Parser → Option (Exprs × Parser)
    parse_elems zero close p = none
    parse_elems (suc f) close p =
        let more = parse_expr f p >>= λ (e, p1).
        parse_elems f close (skip_comma (next p1)) >>= λ (es, p2). some (cons e es, p2) in
        if ends_list close (cur p) then some (nil, p) else more
