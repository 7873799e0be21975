-- ===== src/Devlang/Lexer/Quoted.antt =====
-- String literals: their quoted form, and what NextToken reads of it.
use Prim.Native.Char.{Char}
use dotdevops.Prelude.{
  String, ◌≡◌, refl, inl, inr, ◌∙◌, true, false, ◌||◌, List, [], ◌∷◌, ◌++◌, arith, Bool-cases,
  is_empty, or-eq-false, if◌then◌else◌,
}
use Prim.Native.String as Text
use mathlib.Core.List.{append_assoc}
use dotdevops.Devlang.Lexer.{
  Position, string, is, past, skip, unescaped, with_rune, read_body, read_string, scan_word, scan,
  next_token,
}

-- A backslash before each quote and backslash; all other runes stand for themselves.
abbrev pub escaped_rune : Char → List Char
escaped_rune c = if is b'"' c || is b'\\' c then "\\" ∷ c ∷ [] else c ∷ []

abbrev pub escaped : String → List Char
escaped (Text.[]) = []
escaped (Text.◌∷◌ c s) = escaped_rune c ++ escaped s

-- The source text of a string literal.
abbrev pub quoted : String → List Char
quoted s = "\"" ∷ (escaped s ++ "\"" ∷ [])

abbrev pub past_all : List Char → Position → Position
past_all [] p = p
past_all (c ∷ s) p = past_all s (past c p)

read_body-quote :
    (rest : List Char) (p : Position)
    → read_body ("\"" ∷ rest) p ≡ (string, "", record { rest = rest; pos = past "\"" p })
unfolding read_body
read_body-quote [] p = refl
read_body-quote (c ∷ rest) p = refl

read_body-plain :
    (c : Char) (xs : List Char) (p : Position)
    → (is b'"' c || is b'\\' c) ≡ false
    → is_empty xs ≡ false
    → read_body (c ∷ xs) p ≡ with_rune c (read_body xs (past c p))
unfolding read_body
read_body-plain c [] p other more = cc
read_body-plain c (d ∷ xs) p other more =
    let (no_quote, no_escape) = or-eq-false (is b'"' c) (is b'\\' c) other in
    rw (no_quote, no_escape) refl

read_body-escape :
    (c : Char) (xs : List Char) (p : Position)
    → read_body ("\\" ∷ c ∷ xs) p ≡ with_rune (unescaped c) (read_body xs (past c (past "\\" p)))
unfolding read_body
read_body-escape c xs p = refl

unescaped-escaped : (c : Char) → (is b'"' c || is b'\\' c) ≡ true → unescaped c ≡ c
unescaped-escaped c h = ground (arith, h)

is_empty-append : (xs ys : List Char) (c : Char) → is_empty (xs ++ c ∷ ys) ≡ false
is_empty-append [] ys c = refl
is_empty-append (x ∷ xs) ys c = refl

read_body-escaped :
    (s : String) (rest : List Char) (p : Position)
    → read_body (escaped s ++ "\"" ∷ rest) p
      ≡ (string, s, record { rest = rest; pos = past_all (escaped s ++ "\"" ∷ []) p })
read_body-escaped (Text.[]) rest p = read_body-quote rest p
read_body-escaped (Text.◌∷◌ c s) rest p = elim (Bool-cases (is b'"' c || is b'\\' c)) [
  | inl special ↦ rw special (
      read_body-escape c (escaped s ++ "\"" ∷ rest) p
      ∙ rw (unescaped-escaped c special, read_body-escaped s rest (past c (past "\\" p))) refl)
  | inr other ↦ rw other (
      read_body-plain c (escaped s ++ "\"" ∷ rest) p other (is_empty-append (escaped s) rest "\"")
      ∙ rw (read_body-escaped s rest (past c p)) refl)
]

-- NextToken reads the quoted form of a text, whatever stands behind it, as a string token with that
-- text, and leaves what stands behind.
pub next_token-quoted :
    (s : String) (rest : List Char) (p : Position)
    → next_token (record { rest = quoted s ++ rest; pos = p }) ≡ (
      record { type = string; lexeme = s; pos = p },
      record { rest = rest; pos = past_all (quoted s) p },
    )
unfolding next_token scan scan_word read_string skip
next_token-quoted s rest p =
    rw
      (
        append_assoc (escaped s) ("\"" ∷ []) rest,
        read_string,
        read_body-escaped s rest (past "\"" p),
      )
      refl
