-- ===== src/Devlang/Parser/Tests.antt =====
-- Tokens that the lexer makes of a source, parsed, and the theorem at a concrete expression.
use dotdevops.Prelude.{
  ℕ, zero, suc, String, ◌≡◌, refl, ◌==◌, Option, none, some, List, [], ◌∷◌, arith, if◌then◌else◌,
}
use dotdevops.Devlang.Ast.{op_add, op_and, op_eq, Expr, binary, ternary, call, secret, nil, cons}
use dotdevops.Devlang.Lexer.{Token, Lexer, new_lexer, next_token, colon}
use dotdevops.Devlang.Lexer.Tests.{runes}
use dotdevops.Devlang.Parser.{Problem, expected_colon, Parser, parse_expr}
use dotdevops.Devlang.Parser.Printed.{token, show, last, Fits}
use dotdevops.Devlang.Parser.Read.{Eventually, at, Stops-all}
use dotdevops.Devlang.Parser.RoundTrip.{parse_expr-show}

-- The first tokens of a source.
abbrev tokens : ℕ → Lexer → List Token
tokens zero l = []
tokens (suc n) l = let (t, l') = next_token l in t ∷ tokens n l'

abbrev atoi : String → ℕ
atoi s = if s == "12" then 12 else 0

abbrev digits : ℕ → String
digits n = "12"

abbrev parsed : Option (Expr × Parser) → Option (Expr × List Problem)
parsed none = none
parsed (some (e, p)) = some (e, p.errors)

-- The source x == "a" + "b" && f(12) ? [y] : secret("K")
abbrev sample : Expr
sample =
    ternary
      (binary op_and (binary op_eq (Expr.ident "x") (binary op_add (Expr.str "a") (Expr.str "b")))
        (call "f" (cons (Expr.number 12) nil)))
      (Expr.list (cons (Expr.ident "y") nil)) (secret "K")

parsed-sample :
    parsed (
      parse_expr atoi 30 (record {
        tokens = tokens 24 (new_lexer (runes "x == \"a\" + \"b\" && f(12) ? [y] : secret(\"K\")"));
        errors = [];
      }))
    ≡ some (sample, [])
unfolding parse_expr next_token
parsed-sample = refl

-- A ternary without its second branch loses both.
parsed-half :
    parsed
      (parse_expr atoi 30 (record { tokens = tokens 6 (new_lexer (runes "x ? y")); errors = [] }))
    ≡ some (Expr.ident "x", expected_colon ∷ [])
unfolding parse_expr next_token
parsed-half = refl

abbrev behind : List Token
behind = token colon ":" ∷ []

parse_expr-show_example : Eventually (λ f.
    parse_expr atoi f (at [] (show atoi digits sample behind))
    ≡ some (sample, at [] (last atoi digits sample ∷ behind)))
parse_expr-show_example =
    parse_expr-show atoi digits [] sample behind
      (unfold Fits in
        (
          omega arith,
          (omega arith, (omega arith, tt, (omega arith, tt, tt)), (refl, (refl, tt))),
          (tt, tt),
          tt,
        ))
      (Stops-all (token colon ":") [] refl refl refl refl refl refl)
