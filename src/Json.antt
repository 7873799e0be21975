-- ===== src/Json.antt =====
-- The values that a plan's inputs, probes and desired states hold: what `encoding/json` decodes
-- into `any`. A float64 is its 64-bit pattern, and so is an int.
use dotdevops.Prelude.{ℕ, String, Bool}

mutual
  pub data Value : Type 0 where
    nil : Value
    bool : Bool → Value
    float : ℕ → Value
    int : ℕ → Value
    str : String → Value
    slice : Values → Value
    object : Fields → Value

  -- `[]any`
  pub data Values : Type 0 where
    none : Values
    item : Value → Values → Values

  -- `map[string]any`, in the order in which a `range` loop visits it
  pub data Fields : Type 0 where
    end : Fields
    field : String → Value → Fields → Fields
