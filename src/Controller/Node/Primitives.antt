-- ===== src/Controller/Node/Primitives.antt =====
-- The three primitives of internal/controller/orchestrator.go: runBuiltin, runProcessExec and
-- runFileSync.
use dotdevops.Prelude.{
  String, Bool, true, false, ◌&&◌, ◌||◌, ◌==◌, Option, none, some, List, [], ◌∷◌, if◌then◌else◌,
}
use dotdevops.Prelude.Int.{negsuc}
use dotdevops.Json.{Value, Fields, bool, str}
use dotdevops.Proto.{ChangeSet, Outcome}
use dotdevops.State.Store.{no_changes}
use dotdevops.FileSync.Diff.{diff, is_empty_set}
use dotdevops.Plan.Schema.{Node, Target}
use dotdevops.Controller.Compare.{value_at}
use dotdevops.Controller.Node.{
  Options, RollbackReq, Message, detect_req, apply_req, rollback_req, World, no_connection,
  no_reply, no_source_tree, apply_failed, process_failed, builtin_failed, status, in_sync, Ran,
  failing, quiet, text_of, with_address, redacted_for, with_side_effects, with_rollback_cmd, addr,
  request, entry, after_apply,
}

module _ (world : World) (node : Node) (target : Target) (plan_hash node_hash : String)
    (opts : Options) where
  -- runBuiltin
  unfoldable pub run_builtin : Fields → Ran
  run_builtin inputs =
      let req = request node plan_hash no_changes inputs in
      if world.dials 1 (addr world target)
      then elim (world.apply (addr world target) req) [
        | none ↦ failing (apply_req req ∷ []) no_reply
        | some res ↦
            after_apply (apply_req req ∷ [])
              (entry node target plan_hash node_hash "builtin_no_cs" res.status no_changes
                (redacted_for node (with_address node target)))
              res (builtin_failed res.message)
      ]
      else failing [] no_connection

  -- runProcessExec
  unfoldable pub run_process_exec : Fields → Ran
  run_process_exec inputs =
      let req = request node plan_hash no_changes inputs in
      if opts.dry_run || opts.observe
      then quiet [] true (if opts.observe then in_sync false else status "dry-run")
      else if world.dials 1 (addr world target)
      then elim (world.apply (addr world target) req) [
        | none ↦ failing (apply_req req ∷ []) no_reply
        | some res ↦
            after_apply (apply_req req ∷ [])
              (entry node target plan_hash node_hash "process_exec_no_cs" res.status no_changes (
                redacted_for node
                  (with_side_effects node (with_rollback_cmd node (with_address node target)))))
              res (process_failed res.exit_code res.class)
      ]
      else failing [] no_connection

  -- the type switch on inputs["delete_extra"]
  abbrev pub as_flag : Option Value → Bool
  as_flag (some (bool b)) = b
  as_flag (some (str s)) = s == "true"
  as_flag _ = false

  -- the request of doRollback
  abbrev pub rollback_request : ChangeSet → RollbackReq
  rollback_request cs = record {
    node_id = node.id;
    primitive = node.type;
    plan_hash = plan_hash;
    rollback_cmd = node.rollback_cmd;
    inputs = node.inputs;
    changes = cs;
  }

  -- the messages of step 6, where the apply failed
  abbrev pub rolling_back : Outcome → ChangeSet → List Message
  rolling_back res cs =
      if (res.status == "failed" && res.rollback_safe) && world.dials 3 (addr world target)
      then rollback_req (rollback_request cs) ∷ []
      else []

  -- steps 4 to 6 of runFileSync
  unfoldable pub apply_changes : Fields → Message → ChangeSet → Ran
  apply_changes inputs detected cs =
      let req = request node plan_hash cs inputs in
      if world.dials 2 (addr world target)
      then elim (world.apply (addr world target) req) [
        | none ↦ failing (detected ∷ apply_req req ∷ []) no_reply
        | some res ↦
            after_apply (detected ∷ apply_req req ∷ rolling_back res cs)
              (entry node target plan_hash node_hash (world.hash_changes cs) res.status cs
                (redacted_for node (with_side_effects node (with_address node target))))
              res (apply_failed res.message)
      ]
      else failing (detected ∷ []) no_connection

  -- runFileSync from the change set on
  unfoldable pub with_changes : Fields → Message → ChangeSet → Ran
  unfolding apply_changes
  with_changes inputs detected cs =
      if is_empty_set cs
      then quiet (detected ∷ []) false (if opts.observe then in_sync true else status "applied")
      else if opts.dry_run || opts.observe
      then quiet (detected ∷ []) true (if opts.observe then in_sync false else status "dry-run")
      else apply_changes inputs detected cs

  -- runFileSync
  unfoldable pub run_file_sync : Fields → Ran
  unfolding with_changes
  run_file_sync inputs =
      let detected = detect_req node.id node.type inputs in
      if world.dials 1 (addr world target)
      then elim (world.detect (addr world target) inputs) [
        | none ↦ failing (detected ∷ []) no_reply
        | some dest ↦ elim (world.source_tree (text_of (value_at "src" inputs))) [
          | none ↦ failing (detected ∷ []) no_source_tree
          | some src ↦
              with_changes inputs detected
                (diff src dest 0 (negsuc 0) (negsuc 0) (as_flag (value_at "delete_extra" inputs)))
        ]
      ]
      else failing [] no_connection
