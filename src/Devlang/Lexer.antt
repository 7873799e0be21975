-- ===== src/Devlang/Lexer.antt =====
-- internal/devlang/lexer.go. The source is the list of its runes; where the Go code keeps all of it and a
-- position, the state here is what is left of it. Lines and columns count runes, from 1.
pub mod Quoted
pub mod Ends
pub mod Tests
use Prim.Native.Char.{Char, code}
use dotdevops.Prelude.{
  ℕ, suc, zero, String, Bool, true, false, ◌&&◌, ◌||◌, Option, none, some, List, [], ◌∷◌, leb,
  nat_beq, get?, if◌then◌else◌,
}
use Prim.Native.String as Text

-- The constants EOF to COLON.
pub data TokenType : Type 0 where
  eof illegal : TokenType
  ident string bool number : TokenType
  kw_target kw_node kw_let kw_module kw_step kw_for kw_in kw_param kw_version kw_fleet : TokenType
  kw_primitive kw_inputs kw_body kw_contract kw_probe kw_desired kw_prepare kw_foreach : TokenType
  kw_import kw_fn kw_as : TokenType
  equal lbrace rbrace lbracket rbracket lparen rparen comma plus : TokenType
  ampamp pipepipe eqeq bangeq question colon : TokenType

pub record Position : Type 0 where
  pub line : ℕ
  pub col : ℕ

pub record Token : Type 0 where
  pub type : TokenType
  pub lexeme : String
  pub pos : Position

pub record Lexer : Type 0 where
  pub rest : List Char
  pub pos : Position

-- NewLexer
abbrev pub new_lexer : List Char → Lexer
new_lexer src = record { rest = src; pos = record { line = 1; col = 1 } }

abbrev pub is : ℕ → Char → Bool
is n c = nat_beq (code c) n

-- the position behind a rune, in advance
abbrev pub past : Char → Position → Position
past c p =
    if is b'\n' c then record { line = suc p.line; col = 1 } else record p { col = suc p.col }

abbrev pub is_letter : Char → Bool
is_letter c = (leb b'a' (code c) && leb (code c) b'z') || (leb b'A' (code c) && leb (code c) b'Z')

abbrev pub is_digit : Char → Bool
is_digit c = leb b'0' (code c) && leb (code c) b'9'

-- peek, against a rune that is not 0
abbrev pub next_is : ℕ → List Char → Bool
next_is n [] = false
next_is n (c ∷ s) = is n c

abbrev pub is_blank : Char → Bool
is_blank c = ((is b' ' c || is b'\t' c) || is b'\r' c) || is b'\n' c

-- skipWhitespaceAndComments; the flag tells whether a comment is being read
unfoldable pub skip : Bool → List Char → Position → Lexer
skip comment [] p = record { rest = []; pos = p }
skip true (c ∷ s) p =
    let rest = skip true s (past c p) in if is b'\n' c then skip false s (past c p) else rest
skip false (c ∷ s) p =
    let blank = skip false s (past c p) in
    let comment = skip true s (past c p) in
    if is_blank c
    then blank
    else if is b'/' c && next_is b'/' s
    then comment
    else record { rest = c ∷ s; pos = p }

-- the loops of readNumber and readIdentOrKeyword
unfoldable pub read_while : (Char → Bool) → List Char → Position → String × Lexer
read_while p [] pos = ("", record { rest = []; pos = pos })
read_while p (c ∷ s) pos =
    let more = read_while p s (past c pos) in
    if p c then (Text.◌∷◌ c more.0, more.1) else ("", record { rest = c ∷ s; pos = pos })

abbrev pub is_name_rune : Char → Bool
is_name_rune c = ((is_letter c || is_digit c) || is b'_' c) || is b'.' c

abbrev pub keywords : List (String × TokenType)
keywords =
    ("target", kw_target)
    ∷ ("node", kw_node)
    ∷ ("let", kw_let)
    ∷ ("module", kw_module)
    ∷ ("step", kw_step)
    ∷ ("for", kw_for)
    ∷ ("in", kw_in)
    ∷ ("param", kw_param)
    ∷ ("version", kw_version)
    ∷ ("fleet", kw_fleet)
    ∷ ("primitive", kw_primitive)
    ∷ ("inputs", kw_inputs)
    ∷ ("body", kw_body)
    ∷ ("contract", kw_contract)
    ∷ ("probe", kw_probe)
    ∷ ("desired", kw_desired)
    ∷ ("prepare", kw_prepare)
    ∷ ("foreach", kw_foreach)
    ∷ ("import", kw_import)
    ∷ ("fn", kw_fn)
    ∷ ("as", kw_as)
    ∷ ("true", bool)
    ∷ ("false", bool)
    ∷ []

abbrev pub or_ident : Option TokenType → TokenType
or_ident none = ident
or_ident (some t) = t

-- readNumber
unfoldable pub read_number : Lexer → Token × Lexer
unfolding read_while
read_number l =
    let (lexeme, l') = read_while is_digit l.rest l.pos in
    (record { type = number; lexeme = lexeme; pos = l.pos }, l')

-- readIdentOrKeyword
unfoldable pub read_ident_or_keyword : Lexer → Token × Lexer
unfolding read_while
read_ident_or_keyword l =
    let (lexeme, l') = read_while is_name_rune l.rest l.pos in
    (record { type = or_ident (get? lexeme keywords); lexeme = lexeme; pos = l.pos }, l')

-- the switch on the rune behind a backslash
abbrev pub unescaped : Char → Char
unescaped c = if is b'n' c then "\n" else if is b't' c then "\t" else c

-- the type of a string token and its runes
abbrev pub with_rune : Char → TokenType × String × Lexer → TokenType × String × Lexer
with_rune c (string, text, l) = (string, Text.◌∷◌ c text, l)
with_rune c r = r

-- the loop of readString
unfoldable pub read_body : List Char → Position → TokenType × String × Lexer
read_body [] p = (illegal, "unterminated string", record { rest = []; pos = p })
read_body (c ∷ []) p =
    let l : Lexer = record { rest = []; pos = past c p } in
    if is b'"' c
    then (string, "", l)
    else if is b'\\' c
    then (illegal, "unterminated escape sequence", l)
    else (illegal, "unterminated string", l)
read_body (c ∷ d ∷ s) p =
    let escaped = read_body s (past d (past c p)) in
    let plain = read_body (d ∷ s) (past c p) in
    if is b'"' c
    then (string, "", record { rest = d ∷ s; pos = past c p })
    else if is b'\\' c
    then with_rune (unescaped d) escaped
    else with_rune c plain

-- readString behind the opening quote
unfoldable pub read_string : Position → List Char → Position → Token × Lexer
unfolding read_body
read_string start s p =
    let (type, text, l) = read_body s p in (record { type = type; lexeme = text; pos = start }, l)

-- the cases of NextToken for a rune that is a token
abbrev pub single : Char → Option TokenType
single c =
    if is b'{' c
    then some lbrace
    else if is b'}' c
    then some rbrace
    else if is b'[' c
    then some lbracket
    else if is b']' c
    then some rbracket
    else if is b'(' c
    then some lparen
    else if is b')' c
    then some rparen
    else if is b',' c
    then some comma
    else if is b'+' c
    then some plus
    else if is b'?' c
    then some question
    else if is b':' c
    then some colon
    else none

-- the cases for a rune that starts an operator: the rune that may follow, and the tokens with it
-- and without it
abbrev pub operator : Char → Option (ℕ × TokenType × TokenType)
operator c =
    if is b'=' c
    then some (b'=', eqeq, equal)
    else if is b'&' c
    then some (b'&', ampamp, illegal)
    else if is b'|' c
    then some (b'|', pipepipe, illegal)
    else if is b'!' c
    then some (b'=', bangeq, illegal)
    else none

unfoldable pub scan_operator :
    Char → List Char → Position → ℕ × TokenType × TokenType → Token × Lexer
scan_operator c [] p (second, both, alone) =
    (record { type = alone; lexeme = Text.◌∷◌ c ""; pos = p }, record { rest = []; pos = past c p })
scan_operator c (d ∷ s) p (second, both, alone) =
    if is second d
    then (
      record { type = both; lexeme = Text.◌∷◌ c (Text.◌∷◌ d ""); pos = p },
      record { rest = s; pos = past d (past c p) },
    )
    else (
      record { type = alone; lexeme = Text.◌∷◌ c ""; pos = p },
      record { rest = d ∷ s; pos = past c p },
    )

-- the cases behind the operators
unfoldable pub scan_word : Char → List Char → Position → Token × Lexer
unfolding read_string read_number read_ident_or_keyword
scan_word c s p =
    if is b'"' c
    then read_string p s (past c p)
    else if is_digit c
    then read_number (record { rest = c ∷ s; pos = p })
    else if is_letter c || is b'_' c
    then read_ident_or_keyword (record { rest = c ∷ s; pos = p })
    else (
      record { type = illegal; lexeme = Text.◌∷◌ c ""; pos = p },
      record { rest = s; pos = past c p },
    )

-- NextToken behind the whitespace
unfoldable pub scan : List Char → Position → Token × Lexer
unfolding scan_operator scan_word
scan [] p = (record { type = eof; lexeme = ""; pos = p }, record { rest = []; pos = p })
scan (c ∷ s) p = elim (single c) [
  | some type ↦
      (record { type = type; lexeme = Text.◌∷◌ c ""; pos = p }, record { rest = s; pos = past c p })
  | none ↦ elim (operator c) [ some op ↦ scan_operator c s p op | none ↦ scan_word c s p ]
]

-- NextToken
unfoldable pub next_token : Lexer → Token × Lexer
unfolding skip scan
next_token l = let l' = skip false l.rest l.pos in scan l'.rest l'.pos
