-- ===== src/Devlang/Parser/Atoms.antt =====
-- What the parser makes of the names and literals, read from one token or from a call with one.
use dotdevops.Prelude.Fuel.{once}
use dotdevops.Prelude.{ℕ, suc, String, ◌≡◌, refl, ap, Bool, true, false, ◌==◌, some, List}
use dotdevops.Devlang.Ast.{Expr, secret}
use dotdevops.Devlang.Parser.{Problem, type_of, is_lparen, parse_primary, parse_name}
use dotdevops.Devlang.Parser.Printed.{true_or_false, show, last, Fits}
use dotdevops.Devlang.Parser.Read.{spend, done, shown}
use dotdevops.Devlang.Parser.Levels.{Reads, atom-Reads}

module _ (atoi : String → ℕ) (digits : ℕ → String) (errors : List Problem) where
  pub ident-Reads : (x : String) → Reads atoi digits errors (Expr.ident x)
  unfolding parse_primary parse_name show last Fits
  ident-Reads x =
      atom-Reads atoi digits errors (Expr.ident x) (λ m n h. h)
        λ fits rest stops.
          let p = shown atoi digits errors (Expr.ident x) rest in
          spend (λ f. parse_name atoi f (is_lparen (type_of rest)) x p ≡ some (Expr.ident x, p)) _
            (λ f h. h) (once _ (λ f. ap (λ b. parse_name atoi (suc f) b x p) stops.paren))

  pub str-Reads : (s : String) → Reads atoi digits errors (Expr.str s)
  unfolding parse_primary show last Fits
  str-Reads s =
      atom-Reads atoi digits errors (Expr.str s) (λ m n h. h) λ fits rest stops. once _ (λ f. refl)

  bool-true_or_false : (b : Bool) → (true_or_false b == "true") ≡ b
  bool-true_or_false true = refl
  bool-true_or_false false = refl

  pub bool-Reads : (b : Bool) → Reads atoi digits errors (Expr.bool b)
  unfolding parse_primary show last Fits
  bool-Reads b =
      atom-Reads atoi digits errors (Expr.bool b) (λ m n h. h)
        λ fits rest stops. once _ (λ f.
          ap (λ c. some (Expr.bool c, shown atoi digits errors (Expr.bool b) rest))
            (bool-true_or_false b))

  pub number-Reads : (k : ℕ) → Reads atoi digits errors (Expr.number k)
  unfolding parse_primary show last Fits
  number-Reads k =
      atom-Reads atoi digits errors (Expr.number k) (λ m n h. h)
        λ fits rest stops.
          once _ (λ f.
            ap (λ n. some (Expr.number n, shown atoi digits errors (Expr.number k) rest)) fits)

  pub secret-Reads : (key : String) → Reads atoi digits errors (secret key)
  unfolding parse_primary parse_name show last Fits
  secret-Reads key =
      atom-Reads atoi digits errors (secret key) (λ m n h. h)
        λ fits rest stops.
          let p = shown atoi digits errors (secret key) rest in
          spend (λ f. parse_name atoi f true "secret" p ≡ done atoi digits errors (secret key) rest)
            _ (λ f h. h) (once _ (λ f. refl))
