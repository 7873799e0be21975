-- ===== src/State/Store.antt =====
-- The rows of the table `executions` and the statements that internal/state/store.go runs on
-- them. The table is a list, the newest row first, so `ORDER BY id DESC` is its order; the id of
-- a row is 1 for the first insertion and grows by 1. SQLite's own failures are not modelled.
-- JSON text is what `encoding/json` makes of a value: a parameter.
pub mod Laws
use dotdevops.Prelude.{
  ℕ, suc, String, Bool, Option, none, some, List, [], ◌∷◌, map, ◌&&◌, ◌==◌, length, Result, ok, err,
  if◌then◌else◌,
}
use dotdevops.Json.{Fields}
use dotdevops.Proto.{ChangeSet}

-- `encoding/json`; `none` is an error.
pub record Codec : Type 0 where
  pub marshal_changes : ChangeSet → Option String
  pub unmarshal_changes : String → Option ChangeSet
  pub marshal_inputs : Fields → Option String
  pub unmarshal_inputs : String → Option Fields

pub record Row : Type 0 where
  pub id : ℕ
  pub node_id : String
  pub target : String
  pub primitive_type : String
  pub plan_hash : String
  pub node_hash : String
  pub content_hash : String
  pub timestamp : ℕ
  pub status : String
  pub changeset_json : String
  pub inputs_json : String

pub record Execution : Type 0 where
  pub id : ℕ
  pub node_id : String
  pub target : String
  pub primitive_type : String
  pub plan_hash : String
  pub node_hash : String
  pub content_hash : String
  pub timestamp : ℕ
  pub status : String
  pub changes : ChangeSet
  pub inputs : Fields

abbrev pub Table : Type 0
Table = List Row

-- The arguments of a call of Record.
pub record Entry : Type 0 where
  pub node_id : String
  pub target : String
  pub primitive_type : String
  pub plan_hash : String
  pub node_hash : String
  pub content_hash : String
  pub status : String
  pub changes : ChangeSet
  pub inputs : Fields

pub data StoreError : Type 0 where
  bad_json : StoreError

-- WHERE node_id = ? AND target = ?
abbrev pub of_pair : String → String → Row → Bool
of_pair node target r = r.node_id == node && r.target == target

-- WHERE node_id = ? AND target = ? AND status = 'applied'
abbrev pub applied_of_pair : String → String → Row → Bool
applied_of_pair node target r = of_pair node target r && r.status == "applied"

-- LIMIT 1
unfoldable pub select_first : (Row → Bool) → Table → Option Row
select_first p [] = none
select_first p (r ∷ rs) = if p r then some r else select_first p rs

unfoldable pub select_all : (Row → Bool) → Table → Table
select_all p [] = []
select_all p (r ∷ rs) = if p r then r ∷ select_all p rs else select_all p rs

abbrev pub no_changes : ChangeSet
no_changes = record { create = []; to_update = []; delete = []; chmod = []; chown = []; mkdir = [] }

-- The row of an INSERT into a table of `n` rows.
abbrev pub new_row : ℕ → ℕ → Entry → String → String → Row
new_row n now e changes inputs = record {
  id = suc n;
  node_id = e.node_id;
  target = e.target;
  primitive_type = e.primitive_type;
  plan_hash = e.plan_hash;
  node_hash = e.node_hash;
  content_hash = e.content_hash;
  timestamp = now;
  status = e.status;
  changeset_json = changes;
  inputs_json = inputs;
}

module _ (codec : Codec) where
  open codec use {marshal_changes, unmarshal_changes, marshal_inputs, unmarshal_inputs}

  -- Record: the new table, or the error of the encoder and the table as it was.
  unfoldable pub insert : ℕ → Entry → Table → Result StoreError Table
  insert now e rows = elim (marshal_changes e.changes) [
    | none ↦ err bad_json
    | some changes ↦ elim (marshal_inputs e.inputs) [
      | none ↦ err bad_json
      | some inputs ↦ ok (new_row (length rows) now e changes inputs ∷ rows)
    ]
  ]

  -- the two json.Unmarshal calls behind a Scan; `status` is as scanned, or "" where the
  -- statement does not select it
  unfoldable pub scan : String → Row → Result StoreError Execution
  scan status r = elim (unmarshal_changes r.changeset_json) [
    | none ↦ err bad_json
    | some changes ↦ elim (unmarshal_inputs r.inputs_json) [
      | none ↦ err bad_json
      | some inputs ↦ ok (record {
        id = r.id;
        node_id = r.node_id;
        target = r.target;
        primitive_type = r.primitive_type;
        plan_hash = r.plan_hash;
        node_hash = r.node_hash;
        content_hash = r.content_hash;
        timestamp = r.timestamp;
        status = status;
        changes = changes;
        inputs = inputs;
      })
    ]
  ]

  -- LatestExecution; `ok none` is the nil pointer with no error.
  unfoldable pub latest_execution : String → String → Table → Result StoreError (Option Execution)
  unfolding scan select_first
  latest_execution node target rows = elim (select_first (of_pair node target) rows) [
    | none ↦ ok none
    | some r ↦ elim (scan r.status r) [ ok e ↦ ok (some e) | err x ↦ err x ]
  ]

  -- LastSuccessful does not fill in the status.
  unfoldable pub last_successful : String → String → Table → Result StoreError (Option Execution)
  unfolding scan select_first
  last_successful node target rows = elim (select_first (applied_of_pair node target) rows) [
    | none ↦ ok none
    | some r ↦ elim (scan "" r) [ ok e ↦ ok (some e) | err x ↦ err x ]
  ]

  -- The scan of List and LastRun, which drops the errors of json.Unmarshal: the text is one that
  -- Record wrote, and on bad text the field keeps its zero value.
  unfoldable pub scan_lax : Row → Execution
  scan_lax r = record {
    id = r.id;
    node_id = r.node_id;
    target = r.target;
    primitive_type = r.primitive_type;
    plan_hash = r.plan_hash;
    node_hash = r.node_hash;
    content_hash = r.content_hash;
    timestamp = r.timestamp;
    status = r.status;
    changes = elim (unmarshal_changes r.changeset_json) [ none ↦ no_changes | some cs ↦ cs ];
    inputs = elim (unmarshal_inputs r.inputs_json) [ none ↦ Fields.end | some fs ↦ fs ];
  }

  unfoldable pub list : String → Table → List Execution
  unfolding scan_lax select_all
  list node rows = map scan_lax (select_all (λ r. r.node_id == node) rows)

  unfoldable pub last_run : Table → List Execution
  unfolding scan_lax select_all
  last_run [] = []
  last_run (r ∷ rows) = map scan_lax (select_all (λ x. x.plan_hash == r.plan_hash) (r ∷ rows))
