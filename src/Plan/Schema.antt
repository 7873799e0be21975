-- ===== src/Plan/Schema.antt =====
-- The records of internal/plan/schema.go.
use dotdevops.Prelude.{String, Bool, Option, List, map}
use dotdevops.Prelude.Int.{ℤ}
use dotdevops.Json.{Fields}

pub record Target : Type 0 where
  pub id : String
  pub address : String
  pub labels : List (String × String)

pub record RetryConfig : Type 0 where
  pub attempts : ℤ
  pub delay : String

pub record WhenCondition : Type 0 where
  pub node : String
  pub changed : Bool

-- `none` in `when`, `retry`, `probe` and `desired` is the nil pointer or the nil map.
pub record Node : Type 0 where
  pub id : String
  pub type : String
  pub targets : List String
  pub depends_on : List String
  pub when : Option WhenCondition
  pub failure_policy : String
  pub inputs : Fields
  pub idempotent : Bool
  pub side_effects : String
  pub retry : Option RetryConfig
  pub rollback_cmd : List String
  pub requires_secrets : List String
  pub probe : Option Fields
  pub desired : Option Fields

pub record Plan : Type 0 where
  pub version : String
  pub targets : List Target
  pub nodes : List Node

abbrev pub ids : List Node → List String
ids nodes = map (λ n. n.id) nodes
