-- ===== src/Controller/Node.antt =====
-- What the controller does for one node on one target: runNode and what it calls, in
-- internal/controller/orchestrator.go. The other end of the connection, the local file tree and
-- SHA-256 are parameters; what is printed is not modelled.
pub mod Primitives
pub mod Dispatch
pub mod Effects
pub mod Secrets
pub mod Tests
use dotdevops.Prelude.{
  ℕ, String, Bool, true, false, ◌&&◌, ◌||◌, ◌==◌, Option, none, some, List, [], ◌∷◌, ◌++◌, is_empty,
  mem, Result, ok, err, if◌then◌else◌,
}
use dotdevops.Prelude.Int.{ℤ, negsuc}
use dotdevops.Json.{Value, Values, Fields, bool, str, slice, item, end, field}
use dotdevops.Proto.{FileTree, ChangeSet, Outcome}
use dotdevops.State.Store.{Entry, no_changes}
use dotdevops.FileSync.Diff.{diff, is_empty_set}
use dotdevops.Plan.Schema.{Node, Target}
use dotdevops.Secret.{Provider, SecretError, env_provider, resolve_node_inputs, redact_node_inputs}
use dotdevops.Controller.Compare.{Floats, value_at, compare_state}

pub record Options : Type 0 where
  pub dry_run : Bool
  pub resume : Bool
  pub reconcile : Bool
  pub observe : Bool
  pub confirm : Bool
  pub json_output : Bool
  pub secret_provider : Option Provider

-- The messages sent to an agent.
pub record ApplyReq : Type 0 where
  pub node_id : String
  pub primitive : String
  pub plan_hash : String
  pub changes : ChangeSet
  pub inputs : Fields

pub record RollbackReq : Type 0 where
  pub node_id : String
  pub primitive : String
  pub plan_hash : String
  pub rollback_cmd : List String
  pub inputs : Fields
  pub changes : ChangeSet

pub data Message : Type 0 where
  probe_req : String → Fields → Message
  detect_req : String → String → Fields → Message
  apply_req : ApplyReq → Message
  rollback_req : RollbackReq → Message

-- `dials` tells whether a connection is made, by its number in the call (0 for the probe, 1 for the
-- first request, 2 for the second, 3 for the rollback); a reply is none where reading it fails
-- or its error is set, and where the request or a file could not be sent.
pub record World : Type 0 where
  pub environment : String → Option String
  pub floats : Floats
  pub with_port : String → String
  pub dials : ℕ → String → Bool
  pub probe : String → Fields → Option Fields
  pub detect : String → Fields → Option FileTree
  pub source_tree : String → Option FileTree
  pub apply : String → ApplyReq → Option Outcome
  pub hash_changes : ChangeSet → String

pub data NodeError : Type 0 where
  secret_resolution : SecretError → NodeError
  no_connection : NodeError
  no_reply : NodeError
  no_source_tree : NodeError
  apply_failed : String → NodeError
  process_failed : ℤ → String → NodeError
  builtin_failed : String → NodeError
  unsupported_primitive : String → NodeError

-- The ExecutionResult or ObservationResult of a call, of which only the status is kept.
pub data Report : Type 0 where
  nothing : Report
  status : String → Report
  in_sync : Bool → Report

-- What a call sends, the entries it records, and the three values that it returns.
pub record Ran : Type 0 where
  pub sent : List Message
  pub recorded : List Entry
  pub changed : Bool
  pub report : Report
  pub error : Option NodeError

abbrev pub failing : List Message → NodeError → Ran
failing sent e = record {
  sent = sent;
  recorded = [];
  changed = false;
  report = nothing;
  error = some e;
}

abbrev pub quiet : List Message → Bool → Report → Ran
quiet sent changed report = record {
  sent = sent;
  recorded = [];
  changed = changed;
  report = report;
  error = none;
}

-- m[k] = v
abbrev pub put : String → Value → Fields → Fields
put k v end = field k v end
put k v (field j w fs) = if j == k then field k v fs else field j w (put k v fs)

abbrev pub strings : List String → Value
strings xs = slice (items xs)
  where
    items : List String → Values
    items [] = Values.none
    items (x ∷ xs) = item (str x) (items xs)

-- `s, _ := v.(string)` of a map's value
abbrev pub text_of : Option Value → String
text_of (some (str s)) = s
text_of _ = ""

-- the status that is recorded: "success" is "applied"
abbrev pub db_status : String → String
db_status s = if s == "success" then "applied" else s

-- isBuiltin
abbrev pub builtins : List String
builtins =
    "_fs.write" ∷ "_fs.read" ∷ "_fs.mkdir" ∷ "_fs.delete" ∷ "_fs.chmod" ∷ "_fs.chown" ∷ "_fs.exists"
    ∷ "_fs.stat" ∷ "_net.fetch" ∷ "_exec" ∷ "template.render" ∷ "health.check" ∷ "service.ensure"
    ∷ "package.install" ∷ []

pub is_builtin : String → Bool
is_builtin type = mem type builtins

-- inputsWithAddr before more is put in
abbrev pub with_address : Node → Target → Fields
with_address node target = put "__target_addr" (str target.address) node.inputs

-- secret.RedactNodeInputs of them
abbrev pub redacted_for : Node → Fields → Fields
redacted_for node fs = redact_node_inputs fs node.requires_secrets

abbrev pub with_side_effects : Node → Fields → Fields
with_side_effects node fs =
    if node.side_effects == "" then fs else put "__side_effects" (str node.side_effects) fs

abbrev pub with_rollback_cmd : Node → Fields → Fields
with_rollback_cmd node fs =
    if is_empty node.rollback_cmd then fs else put "__rollback_cmd" (strings node.rollback_cmd) fs

abbrev pub addr : World → Target → String
addr world target = world.with_port target.address

abbrev pub request : Node → String → ChangeSet → Fields → ApplyReq
request node plan_hash cs inputs = record {
  node_id = node.id;
  primitive = node.type;
  plan_hash = plan_hash;
  changes = cs;
  inputs = inputs;
}

abbrev pub entry : Node → Target → String → String → String → String → ChangeSet → Fields → Entry
entry node target plan_hash node_hash content_hash outcome_status cs inputs = record {
  node_id = node.id;
  target = target.id;
  primitive_type = node.type;
  plan_hash = plan_hash;
  node_hash = node_hash;
  content_hash = content_hash;
  status = db_status outcome_status;
  changes = cs;
  inputs = inputs;
}

-- the reply to an apply request: the call ends after it is recorded, with `failure` if it failed
abbrev pub after_apply : List Message → Entry → Outcome → NodeError → Ran
after_apply sent e res failure =
    if res.status == "failed"
    then record {
      sent = sent;
      recorded = e ∷ [];
      changed = true;
      report = status "failed";
      error = some failure;
    }
    else record {
      sent = sent;
      recorded = e ∷ [];
      changed = true;
      report = status "applied";
      error = none;
    }
