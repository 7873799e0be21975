-- ===== src/Devlang/Parser/RoundTrip.antt =====
-- What the parser makes of the tokens of an expression.
use dotdevops.Prelude.Fuel.{once}
use dotdevops.Prelude.{
  ℕ, String, ◌≡◌, refl, ap, ◌∙◌, Bool, true, false, Option, some, List, ◌∷◌, if◌then◌else◌,
}
use dotdevops.Json.{Fields}
use dotdevops.Devlang.Ast.{Expr, Exprs, binary, ternary, secret, call, map_literal, nil, cons}
use dotdevops.Devlang.Lexer.{
  Token, TokenType, string, bool, number, ident, lbracket, rbracket, rparen, comma, question, colon,
}
use dotdevops.Devlang.Parser.{
  Problem, expected_rparen, unterminated_list, closing, secret_key, Parser, Parsed, type_of,
  is_comma, is_rbracket, is_rparen, ends_list, ◌>>=◌, skip_comma, next, parse_expr, parse_primary,
  parse_name, parse_elems,
}
use dotdevops.Devlang.Parser.Printed.{
  token, op_token, left_level, show, show_elems, show_more, last, Fits, AllFit,
}
use dotdevops.Devlang.Parser.Read.{
  Eventually, always, spend, chain, at, Stops, Stops-all, done, shown,
}
use dotdevops.Devlang.Parser.Levels.{Reads, atom-Reads}
use dotdevops.Devlang.Parser.Operators.{binary-Reads, ternary-Reads}
use dotdevops.Devlang.Parser.Atoms.{ident-Reads, str-Reads, bool-Reads, number-Reads, secret-Reads}

abbrev opens : TokenType → Bool
opens string = true
opens bool = true
opens number = true
opens ident = true
opens lbracket = true
opens t = false

-- The tokens of an expression start with one that ends no list.
opens-is_rbracket : (t : TokenType) → opens t ≡ true → ends_list is_rbracket t ≡ false
opens-is_rbracket string h = refl
opens-is_rbracket bool h = refl
opens-is_rbracket number h = refl
opens-is_rbracket ident h = refl
opens-is_rbracket lbracket h = refl
opens-is_rbracket _ h = cc

opens-is_rparen : (t : TokenType) → opens t ≡ true → ends_list is_rparen t ≡ false
opens-is_rparen string h = refl
opens-is_rparen bool h = refl
opens-is_rparen number h = refl
opens-is_rparen ident h = refl
opens-is_rparen lbracket h = refl
opens-is_rparen _ h = cc

module _ (atoi : String → ℕ) (digits : ℕ → String) (errors : List Problem) where
  show-opens :
      (n : ℕ) (e : Expr) (rest : List Token)
      → Fits atoi digits n e
      → opens (type_of (show atoi digits e rest)) ≡ true
  unfolding show Fits
  show-opens n (Expr.ident x) rest fits = refl
  show-opens n (Expr.str s) rest fits = refl
  show-opens n (Expr.bool b) rest fits = refl
  show-opens n (Expr.number k) rest fits = refl
  show-opens n (Expr.list es) rest fits = refl
  show-opens n (binary op l r) rest fits =
      show-opens (left_level op) l (op_token op ∷ show atoi digits r rest) fits.1
  show-opens n (ternary c t e) rest fits =
      show-opens 4 c
        (token question "?" ∷ show atoi digits t (token colon ":" ∷ show atoi digits e rest)) fits.1
  show-opens n (secret key) rest fits = refl
  show-opens n (call name es) rest fits = refl
  show-opens n (map_literal m) rest fits = elim fits [ ]

  -- A list of elements is read up to the token that ends it.
  abbrev ReadsAll : Exprs → Type 0
  ReadsAll es =
      AllFit atoi digits es
      → (close : TokenType → Bool) (t : Token) (rest : List Token) → ends_list close t.type ≡ true
      → is_comma t.type ≡ false
      → Stops 5 (t ∷ rest)
      → ((u : TokenType) → opens u ≡ true → ends_list close u ≡ false)
      → Eventually (λ f.
        parse_elems atoi f close (at errors (show_elems atoi digits es (t ∷ rest)))
        ≡ some (es, at errors (t ∷ rest)))

  Stops-more :
      (es : Exprs) (t : Token) (rest : List Token)
      → Stops 5 (t ∷ rest)
      → Stops 5 (show_more atoi digits es (t ∷ rest))
  unfolding show
  Stops-more nil t rest stops = stops
  Stops-more (cons e es) t rest stops =
      Stops-all (token comma ",") (show atoi digits e (show_more atoi digits es (t ∷ rest))) refl
        refl refl refl refl refl

  skip_comma-show_more :
      (es : Exprs) (t : Token) (rest : List Token)
      → is_comma t.type ≡ false
      → skip_comma (at errors (show_more atoi digits es (t ∷ rest)))
        ≡ at errors (show_elems atoi digits es (t ∷ rest))
  unfolding show
  skip_comma-show_more nil t rest h = ap (λ b. if b then at errors rest else at errors (t ∷ rest)) h
  skip_comma-show_more (cons e es) t rest h = refl

  -- One more element, as the loop reads it.
  abbrev element : (TokenType → Bool) → ℕ → Parser → Option (Exprs × Parser)
  element close f p = parse_expr atoi f p >>= λ (e, p1).
      parse_elems atoi f close (skip_comma (next p1)) >>= λ (es, p2). some (cons e es, p2)

  reads_nil : ReadsAll nil
  unfolding parse_elems show
  reads_nil fits close t rest ends no_comma stops opening = once _ (λ f.
      ap
        (λ b.
          if b then some (nil, at errors (t ∷ rest)) else element close f (at errors (t ∷ rest)))
        ends)

  cons-Reads :
      (e : Expr) (es : Exprs) → Reads atoi digits errors e → ReadsAll es → ReadsAll (cons e es)
  unfolding parse_elems show Fits
  cons-Reads e es r rs fits close t rest ends no_comma stops opening =
      let behind = show_more atoi digits es (t ∷ rest) in
      let p = shown atoi digits errors e behind in
      let res = some (cons e es, at errors (t ∷ rest)) in
      let (k, read) = rs fits.1 close t rest ends no_comma stops opening in
      spend (λ f. element close f p ≡ res) _
        (λ f h.
          ap (λ b. if b then some (nil, p) else element close f p)
            (opening (type_of p.tokens) (show-opens 5 e behind fits.0))
          ∙ h)
        (chain (λ f. parse_expr atoi f p)
          (λ f (x, p1).
            parse_elems atoi f close (skip_comma (next p1)) >>= λ (xs, p2). some (cons x xs, p2))
          (e, at errors (last atoi digits e ∷ behind)) res
          (r.expr fits.0 behind (Stops-more es t rest stops))
          (chain (λ f. parse_elems atoi f close (skip_comma (at errors behind)))
            (λ f (xs, p2). some (cons e xs, p2)) (es, at errors (t ∷ rest)) res
            (
              k,
              λ f le.
                  ap (parse_elems atoi f close) (skip_comma-show_more es t rest no_comma)
                  ∙ read f le,
            )
            (always _ (λ f. refl))))

  map_literal-Reads : (m : Fields) → Reads atoi digits errors (map_literal m)
  unfolding Fits
  map_literal-Reads m = record {
    primary = λ fits. absurd fits;
    concat = λ fits. absurd fits;
    equality = λ fits. absurd fits;
    conj = λ fits. absurd fits;
    disj = λ fits. absurd fits;
    expr = λ fits. absurd fits;
  }

  list-Reads : (es : Exprs) → ReadsAll es → Reads atoi digits errors (Expr.list es)
  unfolding parse_primary show last Fits
  list-Reads es rs =
      atom-Reads atoi digits errors (Expr.list es) (λ m n h. h)
        λ fits rest stops.
          let close = token rbracket "]" in
          spend _ _ (λ f h. h)
            (chain
              (λ f.
                parse_elems atoi f is_rbracket
                  (at errors (show_elems atoi digits es (close ∷ rest))))
              (λ f. closing is_rbracket unterminated_list Expr.list) (es, at errors (close ∷ rest))
              (done atoi digits errors (Expr.list es) rest)
              (rs fits is_rbracket close rest refl refl
                (Stops-all close rest refl refl refl refl refl refl) opens-is_rbracket)
              (always _ (λ f. refl)))

  call-Reads : (name : String) (es : Exprs) → ReadsAll es → Reads atoi digits errors (call name es)
  unfolding parse_primary parse_name show last Fits
  call-Reads name es rs =
      atom-Reads atoi digits errors (call name es) (λ m n h. h)
        λ fits rest stops.
          let close = token rparen ")" in
          let p = shown atoi digits errors (call name es) rest in
          let q = at errors (show_elems atoi digits es (close ∷ rest)) in
          let res = done atoi digits errors (call name es) rest in
          let args : ℕ → Parsed =
            λ f. parse_elems atoi f is_rparen q >>= closing is_rparen expected_rparen (call name) in
          spend (λ f. parse_name atoi f true name p ≡ res) _ (λ f h. h)
            (spend (λ f. args f ≡ res) _
              (λ f h.
                ap (λ b. if b then some (secret_key (type_of q.tokens) q) else args f) fits.0 ∙ h)
              (chain (λ f. parse_elems atoi f is_rparen q)
                (λ f. closing is_rparen expected_rparen (call name)) (es, at errors (close ∷ rest))
                res
                (rs fits.1 is_rparen close rest refl refl
                  (Stops-all close rest refl refl refl refl refl refl) opens-is_rparen)
                (always _ (λ f. refl))))

  mutual
    reads : (e : Expr) → Reads atoi digits errors e
    reads (Expr.ident x) = ident-Reads atoi digits errors x
    reads (Expr.str s) = str-Reads atoi digits errors s
    reads (Expr.bool b) = bool-Reads atoi digits errors b
    reads (Expr.number k) = number-Reads atoi digits errors k
    reads (Expr.list es) = list-Reads es (reads_all es)
    reads (binary op l r) = binary-Reads atoi digits errors op l r (reads l) (reads r)
    reads (ternary c t e) = ternary-Reads atoi digits errors c t e (reads c) (reads t) (reads e)
    reads (secret key) = secret-Reads atoi digits errors key
    reads (call name es) = call-Reads name es (reads_all es)
    reads (map_literal m) = map_literal-Reads m

    reads_all : (es : Exprs) → ReadsAll es
    reads_all nil = reads_nil
    reads_all (cons e es) = cons-Reads e es (reads e) (reads_all es)

  -- An expression that the grammar can write is read from its tokens, for all fuel from some amount
  -- on, with no new error, and the parser stops at its last token, if what stands behind does not go
  -- on with an expression.
  pub parse_expr-show :
      (e : Expr) (rest : List Token)
      → Fits atoi digits 5 e
      → Stops 5 rest
      → Eventually (λ f.
        parse_expr atoi f (at errors (show atoi digits e rest))
        ≡ some (e, at errors (last atoi digits e ∷ rest)))
  parse_expr-show e rest fits stops = (reads e).expr fits rest stops
