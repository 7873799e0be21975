-- ===== src/Controller/Compare.antt =====
-- The comparison of an observed with a desired state in internal/controller/orchestrator.go:
-- compareState and deepEqual. Equality on float64, and with a converted int, is a parameter.
pub mod Satisfied
use dotdevops.Prelude.{
  ℕ, suc, String, Bool, true, false, ◌&&◌, ◌==◌, Option, none, some, List, [], ◌∷◌, is_empty,
  nat_beq, if◌then◌else◌,
}
use dotdevops.Json.{
  Value, Values, Fields, nil, bool, float, int, str, slice, object, item, end, field,
}

pub record Floats : Type 0 where
  pub same : ℕ → ℕ → Bool
  pub same_as_int : ℕ → ℕ → Bool

-- v, ok := m[k]
abbrev pub value_at : String → Fields → Option Value
value_at k end = none
value_at k (field j v fs) = if j == k then some v else value_at k fs

-- m[k], nil for a missing key
abbrev pub or_nil : Option Value → Value
or_nil none = nil
or_nil (some v) = v

abbrev pub field_count : Fields → ℕ
field_count end = 0
field_count (field k v fs) = suc (field_count fs)

-- `a == b` for two Booleans
abbrev pub bool_eq : Bool → Bool → Bool
bool_eq true b = b
bool_eq false true = false
bool_eq false false = true

module _ (floats : Floats) where
  -- deepEqual
  unfoldable mutual
    pub deep_equal : Value → Value → Bool
    deep_equal nil nil = true
    deep_equal (object fs) (object gs) =
        nat_beq (field_count fs) (field_count gs) && fields_equal fs gs
    deep_equal (slice xs) (slice ys) = items_equal xs ys
    deep_equal (float x) (int n) = floats.same_as_int x n
    deep_equal (int n) (float x) = floats.same_as_int x n
    deep_equal (float x) (float y) = floats.same x y
    deep_equal (int m) (int n) = nat_beq m n
    deep_equal (str s) (str t) = s == t
    deep_equal (bool b) (bool c) = bool_eq b c
    deep_equal _ _ = false

    -- the loop over the keys of the first map
    pub fields_equal : Fields → Fields → Bool
    fields_equal end gs = true
    fields_equal (field k v fs) gs = deep_equal v (or_nil (value_at k gs)) && fields_equal fs gs

    -- the lengths and the loop over the indices
    pub items_equal : Values → Values → Bool
    items_equal Values.none Values.none = true
    items_equal (item v vs) (item w ws) = deep_equal v w && items_equal vs ws
    items_equal _ _ = false

  -- StateDiff
  pub record StateDiff : Type 0 where
    pub name : String
    pub observed : Value
    pub desired : Value

  -- the loop of compareState, over the desired fields
  unfoldable pub differences : Fields → Fields → List StateDiff
  differences observed end = []
  differences observed (field k v fs) =
      let rest = differences observed fs in
      elim (value_at k observed) [
        | none ↦ record { name = k; observed = nil; desired = v } ∷ rest
        | some w ↦
            if deep_equal w v then rest else record { name = k; observed = w; desired = v } ∷ rest
      ]

  -- compareState
  unfoldable pub compare_state : Fields → Fields → Bool × List StateDiff
  unfolding differences
  compare_state observed desired =
      let diffs = differences observed desired in (is_empty diffs, diffs)
