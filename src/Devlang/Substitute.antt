-- ===== src/Devlang/Substitute.antt =====
-- substituteInString and indexOf of internal/devlang/lower.go. Go compares bytes; a placeholder
-- starts with a character and ends with one, so it is found at a character here. Each round takes
-- a placeholder from the text, so one more round than the text has characters is enough.
pub mod Replaced
use Prim.Native.String.append
use Prim.Native.String.{String, [], ◌∷◌, ◌++◌}
use Prim.Native.Char.{code}
use dotdevops.Prelude.{
  ℕ, zero, suc, ◌+◌, ◌≤◌, ◌<◌, ◌≡◌, refl, sym, ap, ◌∙◌, subst, Option, none, some, arith, nat_beq,
  Bool-cases, Option-cases, inl, inr, if◌then◌else◌,
}

-- the text behind a placeholder that it starts with
unfoldable pub behind : String → String → Option String
behind [] s = some s
behind (c ∷ p) [] = none
behind (c ∷ p) (d ∷ s) = if nat_beq (code c) (code d) then behind p s else none

abbrev pub before : String → Option (String × String) → Option (String × String)
before s none = none
before s (some (t, rest)) = some (s ++ t, rest)

-- s[:idx] and s[idx+len(placeholder):], none if indexOf returns -1
unfoldable pub cut : String → String → Option (String × String)
unfolding behind
cut p [] = elim (behind p []) [ some rest ↦ some ([], rest) | none ↦ none ]
cut p (c ∷ s) = elim (behind p (c ∷ s)) [
  | some rest ↦ some ([], rest)
  | none ↦ before (c ∷ []) (cut p s)
]

abbrev pub joined : String → Option String → Option String
joined s none = none
joined s (some t) = some (s ++ t)

-- the loop of substituteInString
unfoldable pub substitute_all : ℕ → String → String → String → Option String
unfolding cut
substitute_all zero p value s = none
substitute_all (suc fuel) p value s = elim (cut p s) [
  | none ↦ some s
  | some (t, rest) ↦ joined (t ++ value) (substitute_all fuel p value rest)
]

-- how many characters a text has
abbrev pub size : String → ℕ
size [] = 0
size (c ∷ s) = suc (size s)

abbrev pub placeholder : String → String
placeholder x = "${" ++ (x ++ "}")

abbrev text_or_empty : Option String → String
text_or_empty none = ""
text_or_empty (some s) = s

-- substituteInString
unfoldable pub substitute : String → String → String → String
unfolding substitute_all
substitute x value s = text_or_empty (substitute_all (suc (size s)) (placeholder x) value s)

behind-size : (p s : String) {rest : String} → behind p s ≡ some rest → size rest ≤ size s
unfolding behind
behind-size [] s {rest} h =
    let same : s ≡ rest = cc in subst (λ u. size u ≤ size s) same (omega arith)
behind-size (c ∷ p) [] h = cc
behind-size (c ∷ p) (d ∷ s) {rest} h = elim (Bool-cases (nat_beq (code c) (code d))) [
  | inl e ↦ omega (arith, behind-size p s {rest = rest} (rw e at h))
  | inr e ↦ absurd (cc (rw e at h))
]

-- What is left behind a placeholder is shorter.
behind-shorter :
    (p s : String) {rest : String} → 0 < size p → behind p s ≡ some rest → size rest < size s
unfolding behind
behind-shorter [] s pos h = absurd (omega arith)
behind-shorter (c ∷ p) [] pos h = cc
behind-shorter (c ∷ p) (d ∷ s) {rest} pos h = elim (Bool-cases (nat_beq (code c) (code d))) [
  | inl e ↦ omega (arith, behind-size p s {rest = rest} (rw e at h))
  | inr e ↦ absurd (cc (rw e at h))
]

cut-shorter :
    (p s : String) {t rest : String} → 0 < size p → cut p s ≡ some (t, rest) → size rest < size s
unfolding cut behind
cut-shorter p [] {t} {rest} pos h = elim (Option-cases (behind p [])) [
  | inr (r, e) ↦ absurd (omega (arith, behind-shorter p [] pos e))
  | inl e ↦ absurd (cc (rw (e, cut) at h))
]
cut-shorter p (d ∷ s) {t} {rest} pos h = elim (Option-cases (behind p (d ∷ s))) [
  | inr (r, e) ↦
      let same : r ≡ rest = cc (rw (e, cut) at h) in
      subst (λ u. size u < suc (size s)) same (behind-shorter p (d ∷ s) pos e)
  | inl e ↦ elim (Option-cases (cut p s)) [
    | inl none_left ↦ absurd (cc (rw (e, none_left, cut) at h))
    | inr ((u, r), at) ↦
        let same : r ≡ rest = cc (rw (e, at, cut) at h) in
        subst (λ w. size w < suc (size s)) same (omega (arith, cut-shorter p s pos at))
  ]
]

-- One more round than the text has characters is enough.
substitute_all-some :
    (fuel : ℕ) (p value s : String)
    → 0 < size p
    → size s < fuel
    → (r : String) × (substitute_all fuel p value s ≡ some r)
unfolding substitute_all
substitute_all-some zero p value s pos h = absurd (omega arith)
substitute_all-some (suc fuel) p value s pos h = elim (Option-cases (cut p s)) [
  | inl e ↦ (s, rw (e, substitute_all) refl)
  | inr ((t, rest), e) ↦
      let (r, is) =
        substitute_all-some fuel p value rest pos (omega (arith, cut-shorter p s pos e)) in
      ((t ++ value) ++ r, rw (e, is, substitute_all) refl)
]

pub size-append : (s t : String) → size (s ++ t) ≡ size s + size t
size-append [] t = omega (arith, ap size (append.nil t))
size-append (c ∷ s) t = omega (arith, ap size (append.cons c s t), size-append s t)

-- The loop of the substitution always ends, with its result.
pub substitute_lem :
    (x value s : String)
    → substitute_all (suc (size s)) (placeholder x) value s ≡ some (substitute x value s)
unfolding substitute
substitute_lem x value s =
    let (r, is) =
      substitute_all-some (suc (size s)) (placeholder x) value s
        (omega (arith, size-append "${" (x ++ "}"))) (omega arith) in
    is ∙ ap some (sym (ap text_or_empty is))
