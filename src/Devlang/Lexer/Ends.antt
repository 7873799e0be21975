-- ===== src/Devlang/Lexer/Ends.antt =====
-- How far NextToken gets.
use Prim.Native.Char.{Char}
use dotdevops.Prelude.{
  ℕ, suc, ◌≤◌, ◌<◌, String, ◌≡◌, ◌⊎◌, inl, inr, refl, Bool, true, false, ◌||◌, Option, none, some,
  List, [], ◌∷◌, arith, get?, length, Bool-cases, if◌then◌else◌,
}
use Prim.Native.String as Text
use dotdevops.Devlang.Lexer.{
  Position, Token, Lexer, TokenType, eof, is, past, skip, read_while, is_name_rune, is_digit,
  is_letter, keywords, or_ident, read_number, read_ident_or_keyword, unescaped, with_rune,
  read_body, read_string, single, operator, scan_operator, scan_word, scan, next_token,
}

abbrev pub is_eof : TokenType → Bool
is_eof eof = true
is_eof t = false

skip-le :
    (comment : Bool) (s : List Char) (p : Position) → length (skip comment s p).rest ≤ length s
unfolding skip
skip-le comment [] p = omega arith
skip-le true (c ∷ s) p = ground (arith, skip-le true s (past c p), skip-le false s (past c p))
skip-le false (c ∷ s) p = ground (arith, skip-le true s (past c p), skip-le false s (past c p))

read_while-le :
    (q : Char → Bool) (s : List Char) (p : Position) → length (read_while q s p).1.rest ≤ length s
unfolding read_while
read_while-le q [] p = omega arith
read_while-le q (c ∷ s) p = ground (arith, read_while-le q s (past c p))

read_while-lt :
    (q : Char → Bool) (c : Char) (s : List Char) (p : Position)
    → q c ≡ true
    → length (read_while q (c ∷ s) p).1.rest < suc (length s)
unfolding read_while
read_while-lt q c s p h = ground (arith, h, read_while-le q s (past c p))

-- What a string body leaves, and that its type is not EOF.
abbrev Short : ℕ → TokenType × String × Lexer → Type 0
Short n (type, text, l) = (length l.rest ≤ n) × (is_eof type ≡ false)

with_rune-Short :
    (n : ℕ) (c : Char) (r : TokenType × String × Lexer) → Short n r → Short (suc n) (with_rune c r)
with_rune-Short n c (TokenType.string, text, l) h = (omega arith, h.1)
with_rune-Short n c (_, text, l) h = (omega arith, h.1)

Short-suc : (n : ℕ) (r : TokenType × String × Lexer) → Short n r → Short (suc n) r
Short-suc n (type, text, l) h = (omega arith, h.1)

read_body-Short : (s : List Char) (p : Position) → Short (length s) (read_body s p)
unfolding read_body
read_body-Short [] p = (omega arith, refl)
read_body-Short (c ∷ []) p = ground arith
read_body-Short (c ∷ d ∷ s) p =
    let escaped =
      Short-suc (suc (length s)) (with_rune (unescaped d) (read_body s (past d (past c p)))) (
        with_rune-Short (length s) (unescaped d) (read_body s (past d (past c p)))
          (read_body-Short s (past d (past c p)))) in
    let plain =
      with_rune-Short (suc (length s)) c (read_body (d ∷ s) (past c p))
        (read_body-Short (d ∷ s) (past c p)) in
    elim (Bool-cases (is b'"' c)) [
      | inl quote ↦ rw (quote, read_body) (omega arith, refl)
      | inr other ↦ elim (Bool-cases (is b'\\' c)) [
        | inl back ↦ rw (other, back, read_body) escaped
        | inr no_back ↦ rw (other, no_back, read_body) plain
      ]
    ]

abbrev any_eof : List (String × TokenType) → Bool
any_eof [] = false
any_eof ((k, t) ∷ table) = is_eof t || any_eof table

get?-is_eof :
    (lexeme : String) (table : List (String × TokenType))
    → any_eof table ≡ false
    → is_eof (or_ident (get? lexeme table)) ≡ false
get?-is_eof lexeme [] h = refl
get?-is_eof lexeme ((k, t) ∷ table) h = ground (arith, h, get?-is_eof lexeme table)

-- What a call of NextToken says: the end of the source, or another token and less of the source.
abbrev pub Advances : ℕ → Token × Lexer → Type 0
Advances size (t, l) =
    ((is_eof t.type ≡ true) × (l.rest ≡ [])) ⊎ ((is_eof t.type ≡ false) × (length l.rest < size))

scan_operator-Advances :
    (c : Char) (s : List Char) (p : Position) (second : ℕ) (both alone : TokenType)
    → is_eof both ≡ false
    → is_eof alone ≡ false
    → Advances (suc (length s)) (scan_operator c s p (second, both, alone))
unfolding scan_operator
scan_operator-Advances c [] p second both alone hb ha = inr (ha, omega arith)
scan_operator-Advances c (d ∷ s) p second both alone hb ha = elim (Bool-cases (is second d)) [
  | inl e ↦ rw (e, scan_operator) (inr (hb, omega arith))
  | inr e ↦ rw (e, scan_operator) (inr (ha, omega arith))
]

Advances-if :
    (n : ℕ) (b : Bool) (x y : Token × Lexer)
    → (b ≡ true → Advances n x)
    → (b ≡ false → Advances n y)
    → Advances n (if b then x else y)
Advances-if n true x y h k = h refl
Advances-if n false x y h k = k refl

read_number-Advances :
    (c : Char) (s : List Char) (p : Position)
    → is_digit c ≡ true
    → Advances (suc (length s)) (read_number (record { rest = c ∷ s; pos = p }))
unfolding read_number
read_number-Advances c s p h = inr (refl, read_while-lt is_digit c s p h)

is_letter-is_name_rune : (c : Char) → (is_letter c || is b'_' c) ≡ true → is_name_rune c ≡ true
is_letter-is_name_rune c h = ground (arith, h)

read_ident-Advances :
    (c : Char) (s : List Char) (p : Position)
    → is_name_rune c ≡ true
    → Advances (suc (length s)) (read_ident_or_keyword (record { rest = c ∷ s; pos = p }))
unfolding read_ident_or_keyword
read_ident-Advances c s p h = inr (
  get?-is_eof (read_while is_name_rune (c ∷ s) p).0 keywords refl,
  read_while-lt is_name_rune c s p h,
)

read_string-Advances :
    (start : Position) (s : List Char) (p : Position)
    → Advances (suc (length s)) (read_string start s p)
unfolding read_string
read_string-Advances start s p =
    let short = read_body-Short s p in inr (short.1, omega (arith, short.0))

scan_word-Advances :
    (c : Char) (s : List Char) (p : Position) → Advances (suc (length s)) (scan_word c s p)
unfolding scan_word
scan_word-Advances c s p =
    Advances-if (suc (length s)) (is b'"' c) _ _ (λ e. read_string-Advances p s (past c p))
      λ e. Advances-if (suc (length s)) (is_digit c) _ _ (read_number-Advances c s p) λ e.
        Advances-if (suc (length s)) (is_letter c || is b'_' c) _ _
          (λ h. read_ident-Advances c s p (is_letter-is_name_rune c h))
          (λ h. inr (refl, omega arith))

-- The types in the tables are no EOF.
abbrev NoEof : Option TokenType → Type 0
NoEof none = Unit
NoEof (some t) = is_eof t ≡ false

abbrev NoEofs : Option (ℕ × TokenType × TokenType) → Type 0
NoEofs none = Unit
NoEofs (some (second, both, alone)) = (is_eof both ≡ false) × (is_eof alone ≡ false)

NoEof-if : (b : Bool) (x y : Option TokenType) → NoEof x → NoEof y → NoEof (if b then x else y)
NoEof-if true x y h k = h
NoEof-if false x y h k = k

NoEofs-if :
    (b : Bool) (x y : Option (ℕ × TokenType × TokenType))
    → NoEofs x
    → NoEofs y
    → NoEofs (if b then x else y)
NoEofs-if true x y h k = h
NoEofs-if false x y h k = k

single-NoEof : (c : Char) → NoEof (single c)
single-NoEof c = NoEof-if (is b'{' c) _ _ refl (
    NoEof-if (is b'}' c) _ _ refl (
      NoEof-if (is b'[' c) _ _ refl (
        NoEof-if (is b']' c) _ _ refl (
          NoEof-if (is b'(' c) _ _ refl (
            NoEof-if (is b')' c) _ _ refl (
              NoEof-if (is b',' c) _ _ refl (
                NoEof-if (is b'+' c) _ _ refl
                  (NoEof-if (is b'?' c) _ _ refl (NoEof-if (is b':' c) _ _ refl tt)))))))))

operator-NoEofs : (c : Char) → NoEofs (operator c)
operator-NoEofs c =
    NoEofs-if (is b'=' c) _ _ (refl, refl)
      (NoEofs-if (is b'&' c) _ _ (refl, refl)
        (NoEofs-if (is b'|' c) _ _ (refl, refl) (NoEofs-if (is b'!' c) _ _ (refl, refl) tt)))

operator-Advances :
    (c : Char) (s : List Char) (p : Position) (o : Option (ℕ × TokenType × TokenType))
    → NoEofs o
    → Advances
        (suc (length s))
        (elim o [ some op ↦ scan_operator c s p op | none ↦ scan_word c s p ])
operator-Advances c s p none h = scan_word-Advances c s p
operator-Advances c s p (some (second, both, alone)) h =
    scan_operator-Advances c s p second both alone h.0 h.1

single-Advances :
    (c : Char) (s : List Char) (p : Position) (o : Option TokenType)
    → NoEof o
    → Advances (suc (length s)) (elim o [
      | some type ↦ (
        record { type = type; lexeme = Text.◌∷◌ c ""; pos = p },
        record { rest = s; pos = past c p },
      )
      | none ↦ elim (operator c) [ some op ↦ scan_operator c s p op | none ↦ scan_word c s p ]
    ])
single-Advances c s p none h = operator-Advances c s p (operator c) (operator-NoEofs c)
single-Advances c s p (some type) h = inr (h, omega arith)

Advances-le : (m n : ℕ) (r : Token × Lexer) → m ≤ n → Advances m r → Advances n r
Advances-le m n (t, l) le (inl ended) = inl ended
Advances-le m n (t, l) le (inr (type, less)) = inr (type, omega arith)

scan-Advances : (s : List Char) (p : Position) (n : ℕ) → length s ≤ n → Advances n (scan s p)
unfolding scan
scan-Advances [] p n h = inl (refl, refl)
scan-Advances (c ∷ s) p n h =
    Advances-le (suc (length s)) n (scan (c ∷ s) p) h
      (single-Advances c s p (single c) (single-NoEof c))

-- NextToken returns EOF and leaves no rune, or it returns another token and leaves fewer runes than
-- there were.
pub next_token-Advances : (l : Lexer) → Advances (length l.rest) (next_token l)
unfolding next_token
next_token-Advances l =
    let l' = skip false l.rest l.pos in
    scan-Advances l'.rest l'.pos (length l.rest) (skip-le false l.rest l.pos)
