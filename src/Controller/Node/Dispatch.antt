-- ===== src/Controller/Node/Dispatch.antt =====
-- runNode of internal/controller/orchestrator.go: the secrets, the probe and the dispatch.
use dotdevops.Prelude.{
  String, Bool, true, false, ◌==◌, Option, none, some, List, [], ◌∷◌, ◌++◌, is_empty, Result, ok,
  err, if◌then◌else◌,
}
use dotdevops.Json.{Fields}
use dotdevops.Plan.Schema.{Node, Target}
use dotdevops.Secret.{Provider, SecretError, env_provider, resolve_node_inputs}
use dotdevops.Controller.Compare.{compare_state}
use dotdevops.Controller.Node.{
  Options, Message, probe_req, World, secret_resolution, unsupported_primitive, status, in_sync,
  Ran, failing, quiet, is_builtin, addr,
}
use dotdevops.Controller.Node.Primitives.{run_builtin, run_process_exec, run_file_sync}

abbrev pub prepend : List Message → Ran → Ran
prepend sent r = record r { sent = sent ++ r.sent }

module _ (world : World) (node : Node) (target : Target) (plan_hash node_hash : String)
    (opts : Options) where
  -- the dispatch at the end of runNode
  unfoldable pub dispatch : Fields → Ran
  unfolding run_file_sync run_process_exec run_builtin is_builtin
  dispatch inputs =
      if node.type == "file.sync"
      then run_file_sync world node target plan_hash node_hash opts inputs
      else if node.type == "process.exec"
      then run_process_exec world node target plan_hash node_hash opts inputs
      else if is_builtin node.type
      then run_builtin world node target plan_hash node_hash opts inputs
      else failing [] (unsupported_primitive node.type)

  -- runProbe: the messages and the observed state
  unfoldable pub run_probe : Fields → List Message × Option Fields
  run_probe probe =
      if world.dials 0 (addr world target)
      then (probe_req node.id probe ∷ [], world.probe (addr world target) probe)
      else ([], none)

  -- the comparison of the probe's answer with the desired state, or else `rest`
  unfoldable pub judge : Bool → Ran → Ran
  judge matches rest =
      if opts.observe
      then quiet [] (if matches then false else true) (in_sync matches)
      else if matches
      then quiet [] false (status "satisfied")
      else rest

  unfoldable pub after_probe : Option Fields → Fields → Ran → Ran
  unfolding judge compare_state
  after_probe none desired rest = rest
  after_probe (some state) desired rest = judge ((compare_state world.floats state desired).0) rest

  -- the part of runNode on the probe; a nil map compares as the empty one
  unfoldable pub probed : Option Fields → Option Fields → Ran → Ran
  unfolding run_probe after_probe
  probed (some probe) (some desired) rest =
      let (sent, observed) = run_probe probe in prepend sent (after_probe observed desired rest)
  probed _ _ rest = rest

  abbrev pub provider : Provider
  provider = elim opts.secret_provider [ none ↦ env_provider world.environment | some p ↦ p ]

  -- the inputs with their secrets
  unfoldable pub resolved_inputs : Result SecretError Fields
  resolved_inputs =
      if is_empty node.requires_secrets
      then ok node.inputs
      else resolve_node_inputs provider node.inputs

  unfoldable pub with_inputs : Result SecretError Fields → Ran
  unfolding probed dispatch
  with_inputs (err e) = failing [] (secret_resolution e)
  with_inputs (ok inputs) = probed node.probe node.desired (dispatch inputs)

  -- runNode
  unfoldable pub run_node : Ran
  unfolding resolved_inputs with_inputs
  run_node = with_inputs resolved_inputs
