-- ===== src/Prelude/Text.antt =====
-- Go's tests on strings, which count bytes; a place inside a character is no end of a match.
use Prim.Native.Nat.{ℕ, ◌+◌, ◌-◌, ◌≤◌}
use Prim.Native.String.{String, len, ◌++◌}
use mathlib.Core.Path.{◌≡◌, sym, ap, ◌∙◌, subst}
use mathlib.Core.Bool.{Bool, true, false, ◌&&◌}
use mathlib.Core.Option.{Option, none, some}
use native.Mathlib.Omega.{arith}
use text.Mathlib.Text.{◌==◌, find?}
use text.Mathlib.Text as Text
use text.Mathlib.TextLemmas.{append-nil}
use text.Mathlib.TextPositions.{eq_refl, len-append, get?-append_middle}
use dotdevops.Prelude.Tests.{leb}

abbrev is_text : String → Option String → Bool
is_text t none = false
is_text t (some u) = u == t

-- strings.HasSuffix(s, t)
unfoldable pub ends_with : String → String → Bool
ends_with s t = leb (len t) (len s) && is_text t (Text.get? s (len s - len t) (len s))

-- strings.Contains(s, t)
unfoldable pub contains : String → String → Bool
contains s t = elim (find? s t) [ none ↦ false | some at ↦ true ]

abbrev text_or_empty : Option String → String
text_or_empty none = ""
text_or_empty (some t) = t

-- The text s[i:j] of a string, "" where i or j is inside a character.
unfoldable pub between : String → ℕ → ℕ → String
between s i j = text_or_empty (Text.get? s i j)

pub between-middle : (s t u : String) → between (s ++ (t ++ u)) (len s) (len s + len t) ≡ t
unfolding between
between-middle s t u = ap text_or_empty (get?-append_middle s t u)

leb_of_le : (m n : ℕ) → m ≤ n → leb m n ≡ true
leb_of_le m n h = ground arith

pub ends_with-append : (s t : String) → ends_with (s ++ t) t ≡ true
unfolding ends_with
ends_with-append s t =
    let size = len-append s t in
    let enough : leb (len t) (len (s ++ t)) ≡ true = leb_of_le _ _ (omega arith) in
    let start : len s ≡ len (s ++ t) - len t = omega arith in
    let at : Text.get? (s ++ t) (len s) (len s + len t) ≡ some t =
      subst (λ w. Text.get? (s ++ w) (len s) (len s + len t) ≡ some t) (append-nil t)
        (get?-append_middle s t "") in
    let found : Text.get? (s ++ t) (len (s ++ t) - len t) (len (s ++ t)) ≡ some t =
      subst (λ i. Text.get? (s ++ t) i (len (s ++ t)) ≡ some t) start
        (subst (λ j. Text.get? (s ++ t) (len s) j ≡ some t) (sym size) at) in
    ap (λ b. b && is_text t (Text.get? (s ++ t) (len (s ++ t) - len t) (len (s ++ t)))) enough
    ∙ ap (is_text t) found
    ∙ eq_refl t
