-- ===== src/Devlang/Substitute/Replaced.antt =====
-- The substitution against a description of its result by the pieces of the text.
use Prim.Native.String.append
use Prim.Native.String.{String, [], ◌∷◌, ◌++◌}
use Prim.Native.Char.{Char, code}
use text.Mathlib.TextEquality.{Char-path}
use text.Mathlib.TextLemmas.{append_assoc}
use dotdevops.Prelude.{
  ℕ, zero, suc, ◌≤◌, ◌<◌, ◌≡◌, ◌≢◌, refl, sym, ap, ◌∙◌, subst, true, none, some, arith, nat_beq,
  Bool-cases, Option-cases, inl, inr,
}
use dotdevops.Devlang.Substitute.{
  behind, cut, size, placeholder, substitute_all, substitute, size-append, substitute_lem,
}

-- The text does not hold the pattern.
abbrev pub IsFree : String → String → Type 0
IsFree p s = (a b : String) → s ≢ a ++ (p ++ b)

-- `r` is `s` with `value` in place of each occurrence of the pattern, from left to right.
pub data Replaces (p value : String) : String → String → Type 0 where
  none_left : (s : String) → IsFree p s → Replaces p value s s
  one_more :
      (t rest r : String)
      → IsFree p t
      → Replaces p value rest r
      → Replaces p value (t ++ (p ++ rest)) (t ++ (value ++ r))

behind-split : (p s : String) {rest : String} → behind p s ≡ some rest → s ≡ p ++ rest
unfolding behind
behind-split [] s {rest} h = let same : s ≡ rest = cc in same ∙ sym (append.nil rest)
behind-split (c ∷ p) [] h = cc
behind-split (c ∷ p) (d ∷ s) {rest} h = elim (Bool-cases (nat_beq (code c) (code d))) [
  | inl e ↦
      let same : c ≡ d = Char-path c d (ground arith) in
      let deeper = behind-split p s {rest = rest} (rw e at h) in
      ap (λ x. x ∷ s) (sym same) ∙ ap (λ x. c ∷ x) deeper ∙ sym (append.cons c p rest)
  | inr e ↦ absurd (cc (rw e at h))
]

nat_beq_refl : (n : ℕ) → nat_beq n n ≡ true
nat_beq_refl n = ground arith

behind-append : (p b : String) → behind p (p ++ b) ≡ some b
unfolding behind
behind-append [] b = ap some (append.nil b)
behind-append (c ∷ p) b =
    ap (behind (c ∷ p)) (append.cons c p b) ∙ rw (nat_beq_refl (code c)) (behind-append p b)

cons-append : (c : Char) (u : String) → (c ∷ []) ++ u ≡ c ∷ u
cons-append c u = append.cons c [] u ∙ ap (λ x. c ∷ x) (append.nil u)

now_split :
    (p s : String) {t rest r : String}
    → behind p s ≡ some r
    → [] ≡ t
    → r ≡ rest
    → s ≡ t ++ (p ++ rest)
now_split p s {t} {rest} {r} e first second =
    subst (λ x. s ≡ x ++ (p ++ rest)) first
      (subst (λ x. s ≡ [] ++ (p ++ x)) second (behind-split p s e ∙ sym (append.nil (p ++ r))))

cut-split : (p s : String) {t rest : String} → cut p s ≡ some (t, rest) → s ≡ t ++ (p ++ rest)
unfolding cut
cut-split p [] {t} {rest} h = elim (Option-cases (behind p [])) [
  | inr (r, e) ↦ now_split p [] e (cc (rw (e, cut) at h)) (cc (rw (e, cut) at h))
  | inl e ↦ absurd (cc (rw (e, cut) at h))
]
cut-split p (c ∷ s) {t} {rest} h = elim (Option-cases (behind p (c ∷ s))) [
  | inr (r, e) ↦ now_split p (c ∷ s) e (cc (rw (e, cut) at h)) (cc (rw (e, cut) at h))
  | inl e ↦ elim (Option-cases (cut p s)) [
    | inl gone ↦ absurd (cc (rw (e, gone, cut) at h))
    | inr ((u, r), at) ↦
        let first : (c ∷ []) ++ u ≡ t = cc (rw (e, at, cut) at h) in
        let second : r ≡ rest = cc (rw (e, at, cut) at h) in
        ap (λ x. c ∷ x) (cut-split p s at)
        ∙ sym (append.cons c u (p ++ r))
        ∙ ap (λ x. x ++ (p ++ r)) (sym (cons-append c u) ∙ first)
        ∙ ap (λ x. t ++ (p ++ x)) second
  ]
]

cut-now : (p s r : String) → behind p s ≡ some r → cut p s ≡ some ([], r)
unfolding cut
cut-now p [] r e = rw (e, cut) refl
cut-now p (c ∷ s) r e = rw (e, cut) refl

-- The cut is at the first occurrence or before.
cut-early :
    (p a b : String)
    → (t : String) × (rest : String) × (cut p (a ++ (p ++ b)) ≡ some (t, rest)) × (size t ≤ size a)
unfolding cut
cut-early p [] b = (
  [],
  b,
  ap (cut p) (append.nil (p ++ b)) ∙ cut-now p (p ++ b) b (behind-append p b),
  omega arith,
)
cut-early p (c ∷ a) b =
    let w = a ++ (p ++ b) in
    let (t, rest, at, le) = cut-early p a b in
    elim (Option-cases (behind p (c ∷ w))) [
      | inr (r, e) ↦
          ([], r, ap (cut p) (append.cons c a (p ++ b)) ∙ cut-now p (c ∷ w) r e, omega arith)
      | inl e ↦
          let here : cut p (c ∷ w) ≡ some ((c ∷ []) ++ t, rest) = rw (e, at, cut) refl in
          (
            (c ∷ []) ++ t,
            rest,
            ap (cut p) (append.cons c a (p ++ b)) ∙ here,
            omega (arith, le, size-append (c ∷ []) t),
          )
    ]

uncut-IsFree : (p s : String) → cut p s ≡ none → IsFree p s
uncut-IsFree p s h a b e = let (t, rest, at, le) = cut-early p a b in cc (sym h ∙ ap (cut p) e ∙ at)

cut-IsFree : (p s : String) {t rest : String} → 0 < size p → cut p s ≡ some (t, rest) → IsFree p t
cut-IsFree p s {t} {rest} pos h a b e =
    let (u, r, at, le) = cut-early p a (b ++ (p ++ rest)) in
    let same : s ≡ a ++ (p ++ (b ++ (p ++ rest))) =
      cut-split p s h
      ∙ ap (λ x. x ++ (p ++ rest)) e
      ∙ append_assoc a (p ++ b) (p ++ rest)
      ∙ ap (λ x. a ++ x) (append_assoc p b (p ++ rest)) in
    let first : u ≡ t = cc (sym at ∙ sym (ap (cut p) same) ∙ h) in
    omega (arith, le, pos, ap size first, ap size e, size-append a (p ++ b), size-append p b)

substitute_all-Replaces :
    (fuel : ℕ) (p value s : String) {r : String}
    → 0 < size p
    → substitute_all fuel p value s ≡ some r
    → Replaces p value s r
unfolding substitute_all
substitute_all-Replaces zero p value s pos h = cc
substitute_all-Replaces (suc fuel) p value s {r} pos h = elim (Option-cases (cut p s)) [
  | inl e ↦
      let same : s ≡ r = cc (rw (e, substitute_all) at h) in
      subst (λ x. Replaces p value s x) same (none_left s (uncut-IsFree p s e))
  | inr ((t, rest), e) ↦ elim (Option-cases (substitute_all fuel p value rest)) [
    | inl gone ↦ absurd (cc (rw (e, gone, substitute_all) at h))
    | inr (u, is) ↦
        let same : (t ++ value) ++ u ≡ r = cc (rw (e, is, substitute_all) at h) in
        subst (λ x. Replaces p value x r) (sym (cut-split p s e))
          (subst (λ x. Replaces p value (t ++ (p ++ rest)) x) (sym (append_assoc t value u) ∙ same)
            (one_more t rest u (cut-IsFree p s pos e)
              (substitute_all-Replaces fuel p value rest pos is)))
  ]
]

-- The substitution replaces each placeholder of the variable, from left to right.
pub substitute-Replaces :
    (x value s : String) → Replaces ("${" ++ (x ++ "}")) value s (substitute x value s)
substitute-Replaces x value s =
    substitute_all-Replaces (suc (size s)) (placeholder x) value s
      (omega (arith, size-append "${" (x ++ "}"))) (substitute_lem x value s)
