-- ===== src/Prelude/Maps.antt =====
-- Go's maps with string keys. As association lists, for maps that a `range` loop visits; as
-- functions, for maps that are read at keys only; a missing key
-- reads as the zero value.
use mathlib.Core.Bool.{Bool, false, ◌&&◌, ◌||◌}
use mathlib.Core.Option.{Option, none, some}
use mathlib.Core.List.{List, [], ◌∷◌}
use Prim.Native.String.{String}
use text.Mathlib.Text.{◌==◌}
use dotdevops.Prelude.Tests.{if◌then◌else◌}

abbrev pub Map {ℓ} : Type ℓ → Type ℓ
Map V = String → V

-- m[k] = v
abbrev pub update {ℓ} : {V : Type ℓ} → Map V → String → V → Map V
update m k v j = if k == j then v else m j

module _ {ℓ} {V : Type ℓ} where
  -- v, ok := m[k]
  abbrev pub get? : String → List (String × V) → Option V
  get? k [] = none
  get? k ((j, v) ∷ m) = if j == k then some v else get? k m

  -- _, ok := m[k]
  abbrev pub has : String → List (String × V) → Bool
  has k [] = false
  has k ((j, v) ∷ m) = j == k || has k m

  -- Some entry under the key `k` satisfies `p`.
  abbrev pub any_at : String → (V → Bool) → List (String × V) → Bool
  any_at k p [] = false
  any_at k p ((j, v) ∷ m) = (j == k && p v) || any_at k p m
