-- ===== src/Controller/Rollback.antt =====
-- RollbackLast and doRollback of internal/controller/orchestrator.go. What is printed is not
-- modelled; the agent and the user are parameters. A failure of the store to write is dropped, as in
-- the code, and a failure of it to read is not modelled.
pub mod Stored
pub mod Again
pub mod Tests
use dotdevops.Prelude.{
  ℕ, String, Bool, true, false, not, ◌&&◌, ◌||◌, ◌==◌, Option, none, some, List, [], ◌∷◌, ◌++◌,
  is_empty, Result, ok, err, if◌then◌else◌,
}
use dotdevops.Json.{Value, Values, Fields, slice, item}
use dotdevops.Proto.{ChangeSet}
use dotdevops.State.Store.{Codec, Table, Entry, Execution, insert, last_run}
use dotdevops.Controller.Compare.{value_at}
use dotdevops.Controller.Node.{RollbackReq, text_of}

-- RollbackResp, of which the error and the status are read.
pub record Reply : Type 0 where
  pub error : String
  pub status : String

-- `reply` is none where there is no connection or reading from it fails; `sprint` is fmt.Sprint;
-- `answer` is the line that the user types, trimmed and in lower case, none where reading it fails.
pub record Outside : Type 0 where
  pub codec : Codec
  pub now : ℕ
  pub with_port : String → String
  pub sprint : Value → String
  pub reply : String → RollbackReq → Option Reply
  pub answer : Option String

pub data Refusal : Type 0 where
  no_previous_run irreversible unread aborted : Refusal

-- The rows of the store, the requests that were tried, and the executions that the lines of
-- RollbackResult name.
pub record Progress : Type 0 where
  pub rows : Table
  pub tried : List RollbackReq
  pub rolled_back : List Execution
  pub skipped : List Execution
  pub errors : List Execution

-- the statuses that are rolled back
abbrev pub was_applied : Execution → Bool
was_applied ex = ex.status == "applied" || ex.status == "partial"

-- validExecs
unfoldable pub valid : List Execution → List Execution
valid [] = []
valid (ex ∷ exs) = if was_applied ex then ex ∷ valid exs else valid exs

abbrev pub is_there : Option Value → Bool
is_there none = false
is_there (some v) = true

-- se == "none", where "" stands for "target"
abbrev pub has_no_effect : Execution → Bool
has_no_effect ex = text_of (value_at "__side_effects" ex.inputs) == "none"

-- needsConfirm
unfoldable pub needs_confirm : List Execution → Bool
needs_confirm [] = false
needs_confirm (ex ∷ exs) =
    ((ex.primitive_type == "process.exec" && not (is_there (value_at "__rollback_cmd" ex.inputs)))
      && not (has_no_effect ex))
    || needs_confirm exs

-- the status of a reply; a missing reply, an error and "failed" are errors of doRollback
abbrev pub accepted : Option Reply → Bool
accepted none = false
accepted (some r) = r.error == "" && not (r.status == "failed")

-- the question; ok where the loop is reached
unfoldable pub ask : Bool → Bool → Option String → Result Refusal (Unit {0})
ask json confirmed answer =
    if confirmed then ok tt else if json then err irreversible else elim answer [
      | none ↦ err unread
      | some s ↦ if s == "yes" || s == "y" then ok tt else err aborted
    ]

-- the arguments of store.Record
abbrev pub rollback_entry : String → Execution → Entry
rollback_entry status ex = record {
  node_id = ex.node_id;
  target = ex.target;
  primitive_type = ex.primitive_type;
  plan_hash = ex.plan_hash;
  node_hash = ex.node_hash;
  content_hash = "rollback_cs";
  status = status;
  changes = ex.changes;
  inputs = ex.inputs;
}

module _ (outside : Outside) where
  abbrev pub words : Values → List String
  words Values.none = []
  words (item v vs) = outside.sprint v ∷ words vs

  -- rbCmd
  abbrev pub command_of : Option Value → List String
  command_of (some (slice vs)) = words vs
  command_of _ = []

  abbrev pub command : Execution → List String
  command ex = command_of (value_at "__rollback_cmd" ex.inputs)

  -- addrStr
  abbrev pub address : Execution → String
  address ex =
      let s = text_of (value_at "__target_addr" ex.inputs) in
      outside.with_port (if s == "" then ex.target else s)

  -- the request of doRollback
  abbrev pub rollback_request : Execution → RollbackReq
  rollback_request ex = record {
    node_id = ex.node_id;
    primitive = ex.primitive_type;
    plan_hash = ex.plan_hash;
    rollback_cmd = command ex;
    inputs = ex.inputs;
    changes = ex.changes;
  }

  -- store.Record, whose error is dropped
  unfoldable pub record_as : String → Execution → Table → Table
  record_as status ex rows =
      elim (insert outside.codec outside.now (rollback_entry status ex) rows) [
        | ok rows' ↦ rows'
        | err e ↦ rows
      ]

  abbrev pub is_skipped : Execution → Bool
  is_skipped ex = ex.primitive_type == "process.exec" && is_empty (command ex)

  -- the body of the second loop
  unfoldable pub roll_back_one : Execution → Progress → Progress
  unfolding record_as
  roll_back_one ex p =
      if is_skipped ex
      then record p { skipped = p.skipped ++ ex ∷ []; rows = record_as "skipped" ex p.rows }
      else if accepted (outside.reply (address ex) (rollback_request ex))
      then record p {
        tried = p.tried ++ rollback_request ex ∷ [];
        rolled_back = p.rolled_back ++ ex ∷ [];
        rows = record_as "rolled_back" ex p.rows;
      }
      else record p { tried = p.tried ++ rollback_request ex ∷ []; errors = p.errors ++ ex ∷ [] }

  unfoldable pub roll_back_all : List Execution → Progress → Progress
  unfolding roll_back_one
  roll_back_all [] p = p
  roll_back_all (ex ∷ exs) p = roll_back_all exs (roll_back_one ex p)

  -- RollbackLast: the progress made, or the reason why nothing was done
  unfoldable pub rollback_last : Bool → Bool → Table → Result Refusal Progress
  unfolding valid needs_confirm ask roll_back_all
  rollback_last json confirm rows =
      let execs = last_run outside.codec rows in
      let start : Progress = record {
        rows = rows;
        tried = [];
        rolled_back = [];
        skipped = [];
        errors = [];
      } in
      if is_empty execs
      then err no_previous_run
      else elim (ask json (confirm || not (needs_confirm (valid execs))) outside.answer) [
        | ok u ↦ ok (roll_back_all (valid execs) start)
        | err e ↦ err e
      ]
