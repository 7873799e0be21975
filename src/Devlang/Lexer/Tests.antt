-- ===== src/Devlang/Lexer/Tests.antt =====
-- Tokens of a small source, and the theorems at concrete inputs.
use Prim.Native.Char.{Char}
use dotdevops.Prelude.{ℕ, zero, suc, String, ◌≡◌, refl, List, [], ◌∷◌, ◌++◌, length}
use Prim.Native.String as Text
use dotdevops.Devlang.Lexer.{
  Position, Lexer, TokenType, kw_let, ident, equal, eqeq, string, number, illegal, new_lexer,
  next_token,
}
use dotdevops.Devlang.Lexer.Quoted.{quoted, past_all, next_token-quoted}
use dotdevops.Devlang.Lexer.Ends.{Advances, next_token-Advances}

abbrev pub runes : String → List Char
runes (Text.[]) = []
runes (Text.◌∷◌ c s) = c ∷ runes s

-- The types and texts of the first tokens.
abbrev first : ℕ → Lexer → List (TokenType × String)
first zero l = []
first (suc n) l = let (t, l') = next_token l in (t.type, t.lexeme) ∷ first n l'

abbrev source : Lexer
source = new_lexer (runes "let x1 = \"a\\\"b\" // note\n == 42 &")

first-source :
    first 7 source
    ≡ (kw_let, "let")
      ∷ (ident, "x1")
      ∷ (equal, "=")
      ∷ (string, "a\"b")
      ∷ (eqeq, "==")
      ∷ (number, "42")
      ∷ (illegal, "&")
      ∷ []
unfolding next_token
first-source = refl

abbrev start : Position
start = record { line = 1; col = 1 }

next_token-quoted_example :
    next_token (record { rest = quoted "a\"b\\" ++ runes " x"; pos = start }) ≡ (
      record { type = string; lexeme = "a\"b\\"; pos = start },
      record { rest = runes " x"; pos = past_all (quoted "a\"b\\") start },
    )
next_token-quoted_example = next_token-quoted "a\"b\\" (runes " x") start

next_token-Advances_example : Advances (length source.rest) (next_token source)
next_token-Advances_example = next_token-Advances source
