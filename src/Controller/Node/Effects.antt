-- ===== src/Controller/Node/Effects.antt =====
-- What a call of runNode sends.
use dotdevops.Prelude.{
  String, ◌≡◌, refl, inl, inr, Bool, true, false, ◌||◌, ◌==◌, Option, none, some, List, [], ◌∷◌,
  arith, Result, ok, err, Bool-cases, Option-cases,
}
use dotdevops.Json.{Fields}
use dotdevops.Proto.{ChangeSet}
use dotdevops.FileSync.Diff.{is_empty_set}
use dotdevops.Plan.Schema.{Node, Target}
use dotdevops.Secret.{SecretError}
use dotdevops.Controller.Compare.{compare_state, value_at}
use dotdevops.Controller.Node.{Options, Message, apply_req, rollback_req, World, Ran, addr, text_of}
use dotdevops.Controller.Node.Primitives.{run_process_exec, run_file_sync, with_changes}
use dotdevops.Controller.Node.Dispatch.{
  dispatch, prepend, run_probe, judge, probed, resolved_inputs, with_inputs, after_probe, run_node,
}

-- A message that makes the agent change its host.
abbrev pub is_change : Message → Bool
is_change (apply_req r) = true
is_change (rollback_req r) = true
is_change _ = false

abbrev pub any_change : List Message → Bool
any_change [] = false
any_change (m ∷ ms) = is_change m || any_change ms

-- The call asks for no change and records nothing.
abbrev pub Quiet : Ran → Type 0
Quiet r = (any_change r.sent ≡ false) × (r.recorded ≡ [])

Quiet-prepend :
    (ms : List Message) (r : Ran) → any_change ms ≡ false → Quiet r → Quiet (prepend ms r)
Quiet-prepend [] r h q = q
Quiet-prepend (m ∷ ms) r h q =
    let rest = Quiet-prepend ms r (ground arith) q in (ground (arith, rest.0), q.1)

module _ (world : World) (node : Node) (target : Target) (plan_hash node_hash : String)
    (opts : Options) where
  run_process_exec-Quiet :
      (inputs : Fields)
      → (opts.dry_run || opts.observe) ≡ true
      → Quiet (run_process_exec world node target plan_hash node_hash opts inputs)
  unfolding run_process_exec
  run_process_exec-Quiet inputs h = rw h (refl, refl)

  with_changes-Quiet :
      (inputs : Fields) (m : Message) (cs : ChangeSet)
      → is_change m ≡ false
      → (opts.dry_run || opts.observe) ≡ true
      → Quiet (with_changes world node target plan_hash node_hash opts inputs m cs)
  unfolding with_changes
  with_changes-Quiet inputs m cs k h = elim (Bool-cases (is_empty_set cs)) [
    | inl e ↦ rw (e, k) (refl, refl)
    | inr n ↦ rw (n, h, k) (refl, refl)
  ]

  run_file_sync-Quiet :
      (inputs : Fields)
      → (opts.dry_run || opts.observe) ≡ true
      → Quiet (run_file_sync world node target plan_hash node_hash opts inputs)
  unfolding run_file_sync
  run_file_sync-Quiet inputs h = elim (Bool-cases (world.dials 1 (addr world target))) [
    | inr n ↦ rw n (refl, refl)
    | inl y ↦ elim (Option-cases (world.detect (addr world target) inputs)) [
      | inl d ↦ rw (y, d) (refl, refl)
      | inr (dest, d) ↦ elim (Option-cases (world.source_tree (text_of (value_at "src" inputs)))) [
        | inl s ↦ rw (y, d, s) (refl, refl)
        | inr (src, s) ↦ rw (y, d, s) (with_changes-Quiet inputs _ _ refl h)
      ]
    ]
  ]

  run_probe-asks_nothing :
      (probe : Fields)
      → any_change (run_probe world node target plan_hash node_hash opts probe).0 ≡ false
  unfolding run_probe
  run_probe-asks_nothing probe = elim (Bool-cases (world.dials 0 (addr world target))) [
    | inl y ↦ rw y refl
    | inr n ↦ rw n refl
  ]

  judge-Quiet :
      (m : Bool) (rest : Ran)
      → Quiet rest
      → Quiet (judge world node target plan_hash node_hash opts m rest)
  unfolding judge
  judge-Quiet m rest q = elim (Bool-cases opts.observe) [
    | inl y ↦ rw y (refl, refl)
    | inr n ↦ elim (Bool-cases m) [ inl y ↦ rw (n, y) (refl, refl) | inr k ↦ rw (n, k) q ]
  ]

  after_probe-Quiet :
      (observed : Option Fields) (desired : Fields) (rest : Ran)
      → Quiet rest
      → Quiet (after_probe world node target plan_hash node_hash opts observed desired rest)
  unfolding after_probe
  after_probe-Quiet none desired rest q = q
  after_probe-Quiet (some state) desired rest q =
      judge-Quiet (compare_state world.floats state desired).0 rest q

  probed-Quiet :
      (probe desired : Option Fields) (rest : Ran)
      → Quiet rest
      → Quiet (probed world node target plan_hash node_hash opts probe desired rest)
  unfolding probed
  probed-Quiet (some probe) (some desired) rest q =
      let asked = run_probe world node target plan_hash node_hash opts probe in
      Quiet-prepend asked.0
        (after_probe world node target plan_hash node_hash opts asked.1 desired rest)
        (run_probe-asks_nothing probe) (after_probe-Quiet asked.1 desired rest q)
  probed-Quiet none desired rest q = q
  probed-Quiet (some probe) none rest q = q

  dispatch-Quiet :
      (inputs : Fields)
      → (node.type == "file.sync" || node.type == "process.exec") ≡ true
      → (opts.dry_run || opts.observe) ≡ true
      → Quiet (dispatch world node target plan_hash node_hash opts inputs)
  unfolding dispatch
  dispatch-Quiet inputs kind h = elim (Bool-cases (node.type == "file.sync")) [
    | inl y ↦ rw y (run_file_sync-Quiet inputs h)
    | inr n ↦
        let exec : (node.type == "process.exec") ≡ true = ground arith in
        rw (n, exec) (run_process_exec-Quiet inputs h)
  ]

  with_inputs-Quiet :
      (inputs : Result SecretError Fields)
      → (node.type == "file.sync" || node.type == "process.exec") ≡ true
      → (opts.dry_run || opts.observe) ≡ true
      → Quiet (with_inputs world node target plan_hash node_hash opts inputs)
  unfolding with_inputs
  with_inputs-Quiet (err e) kind h = (refl, refl)
  with_inputs-Quiet (ok inputs) kind h =
      probed-Quiet node.probe node.desired _ (dispatch-Quiet inputs kind h)

  -- A dry run or an observation of a file.sync or process.exec node sends no request that changes
  -- the host, and records nothing.
  pub run_node-Quiet :
      (node.type == "file.sync" || node.type == "process.exec") ≡ true
      → (opts.dry_run || opts.observe) ≡ true
      → Quiet (run_node world node target plan_hash node_hash opts)
  unfolding run_node
  run_node-Quiet kind h =
      with_inputs-Quiet (resolved_inputs world node target plan_hash node_hash opts) kind h
