-- ===== src/Controller/Node/Secrets.antt =====
-- What a call of runNode records.
use dotdevops.Prelude.{
  String, ◌≡◌, refl, ◌⊎◌, inl, inr, Bool, true, false, ◌||◌, ◌==◌, Option, none, some, List, [],
  ◌∷◌, Result, ok, err, Bool-cases, Option-cases, All,
}
use dotdevops.Json.{Fields}
use dotdevops.Proto.{ChangeSet, Outcome}
use dotdevops.FileSync.Diff.{is_empty_set}
use dotdevops.State.Store.{no_changes}
use dotdevops.Plan.Schema.{Node, Target}
use dotdevops.Secret.{SecretError}
use dotdevops.Secret.Laws.{NoPlaceholder, redacted-NoPlaceholder}
use dotdevops.Controller.Compare.{compare_state, value_at}
use dotdevops.Controller.Node.{
  Options, Message, World, ApplyReq, NodeError, Ran, after_apply, with_address, redacted_for,
  is_builtin, with_side_effects, with_rollback_cmd, addr, request, entry, text_of,
}
use dotdevops.Controller.Node.Primitives.{
  run_builtin, run_process_exec, run_file_sync, with_changes, apply_changes,
}
use dotdevops.Controller.Node.Dispatch.{
  dispatch, run_probe, judge, probed, resolved_inputs, with_inputs, after_probe, run_node,
}

-- What is put into the inputs that a primitive records.
pub data Extra : Type 0 where
  for_builtin for_sync for_exec : Extra

abbrev pub inputs_for : Node → Target → Extra → Fields
inputs_for node target for_builtin = with_address node target
inputs_for node target for_sync = with_side_effects node (with_address node target)
inputs_for node target for_exec =
    with_side_effects node (with_rollback_cmd node (with_address node target))

abbrev pub is_some {ℓ} : {A : Type ℓ} → Option A → Bool
is_some none = false
is_some (some a) = true

module _ (world : World) (node : Node) (target : Target) (plan_hash node_hash : String)
    (opts : Options) where
  -- Nothing is recorded, or one entry with the status that the agent answered to an apply request.
  -- Its inputs are those of the plan's node, and an error is returned just when the status is
  -- "failed".
  abbrev pub Faithful : Ran → Type 0
  Faithful r =
      (r.recorded ≡ [])
      ⊎ ((x : Extra) × (hash : String) × (cs : ChangeSet) × (req : ApplyReq) × (res : Outcome)
          × (world.apply (addr world target) req ≡ some res)
          × (r.recorded
              ≡ entry node target plan_hash node_hash hash res.status cs
                  (redacted_for node (inputs_for node target x))
                ∷ [])
          × (is_some r.error ≡ (res.status == "failed")))

  after_apply-Faithful :
      (ms : List Message) (x : Extra) (hash : String) (cs : ChangeSet) (req : ApplyReq)
      (res : Outcome) (e : NodeError)
      → world.apply (addr world target) req ≡ some res
      → Faithful (
          after_apply ms
            (entry node target plan_hash node_hash hash res.status cs
              (redacted_for node (inputs_for node target x)))
            res
            e)
  after_apply-Faithful ms x hash cs req res e y = elim (Bool-cases (res.status == "failed")) [
    | inl f ↦ inr (x, hash, cs, req, res, y, rw f refl, rw f refl)
    | inr k ↦ inr (x, hash, cs, req, res, y, rw k refl, rw k refl)
  ]

  run_builtin-Faithful :
      (inputs : Fields) → Faithful (run_builtin world node target plan_hash node_hash opts inputs)
  unfolding run_builtin
  run_builtin-Faithful inputs = elim (Bool-cases (world.dials 1 (addr world target))) [
    | inr n ↦ rw n (inl refl)
    | inl up ↦
        elim (Option-cases
          (world.apply (addr world target) (request node plan_hash no_changes inputs))) [
            | inl n ↦ rw (up, n) (inl refl)
            | inr (res, y) ↦ rw (up, y) (after_apply-Faithful _ for_builtin _ _ _ res _ y)
          ]
  ]

  run_process_exec-Faithful :
      (inputs : Fields)
      → Faithful (run_process_exec world node target plan_hash node_hash opts inputs)
  unfolding run_process_exec
  run_process_exec-Faithful inputs = elim (Bool-cases (opts.dry_run || opts.observe)) [
    | inl d ↦ rw d (inl refl)
    | inr w ↦ elim (Bool-cases (world.dials 1 (addr world target))) [
      | inr n ↦ rw (w, n) (inl refl)
      | inl up ↦
          elim (Option-cases
            (world.apply (addr world target) (request node plan_hash no_changes inputs))) [
              | inl n ↦ rw (w, up, n) (inl refl)
              | inr (res, y) ↦ rw (w, up, y) (after_apply-Faithful _ for_exec _ _ _ res _ y)
            ]
    ]
  ]

  apply_changes-Faithful :
      (inputs : Fields) (m : Message) (cs : ChangeSet)
      → Faithful (apply_changes world node target plan_hash node_hash opts inputs m cs)
  unfolding apply_changes
  apply_changes-Faithful inputs m cs = elim (Bool-cases (world.dials 2 (addr world target))) [
    | inr n ↦ rw n (inl refl)
    | inl up ↦
        elim (Option-cases (world.apply (addr world target) (request node plan_hash cs inputs))) [
          | inl n ↦ rw (up, n) (inl refl)
          | inr (res, y) ↦ rw (up, y) (after_apply-Faithful _ for_sync _ _ _ res _ y)
        ]
  ]

  with_changes-Faithful :
      (inputs : Fields) (m : Message) (cs : ChangeSet)
      → Faithful (with_changes world node target plan_hash node_hash opts inputs m cs)
  unfolding with_changes
  with_changes-Faithful inputs m cs = elim (Bool-cases (is_empty_set cs)) [
    | inl e ↦ rw e (inl refl)
    | inr n ↦ elim (Bool-cases (opts.dry_run || opts.observe)) [
      | inl d ↦ rw (n, d) (inl refl)
      | inr w ↦ rw (n, w) (apply_changes-Faithful inputs m cs)
    ]
  ]

  run_file_sync-Faithful :
      (inputs : Fields) → Faithful (run_file_sync world node target plan_hash node_hash opts inputs)
  unfolding run_file_sync
  run_file_sync-Faithful inputs = elim (Bool-cases (world.dials 1 (addr world target))) [
    | inr n ↦ rw n (inl refl)
    | inl y ↦ elim (Option-cases (world.detect (addr world target) inputs)) [
      | inl d ↦ rw (y, d) (inl refl)
      | inr (dest, d) ↦ elim (Option-cases (world.source_tree (text_of (value_at "src" inputs)))) [
        | inl s ↦ rw (y, d, s) (inl refl)
        | inr (src, s) ↦ rw (y, d, s) (with_changes-Faithful inputs _ _)
      ]
    ]
  ]

  dispatch-Faithful :
      (inputs : Fields) → Faithful (dispatch world node target plan_hash node_hash opts inputs)
  unfolding dispatch
  dispatch-Faithful inputs = elim (Bool-cases (node.type == "file.sync")) [
    | inl y ↦ rw y (run_file_sync-Faithful inputs)
    | inr n ↦ elim (Bool-cases (node.type == "process.exec")) [
      | inl y ↦ rw (n, y) (run_process_exec-Faithful inputs)
      | inr k ↦ elim (Bool-cases (is_builtin node.type)) [
        | inl y ↦ rw (n, k, y) (run_builtin-Faithful inputs)
        | inr j ↦ rw (n, k, j) (inl refl)
      ]
    ]
  ]

  judge-Faithful :
      (m : Bool) (rest : Ran)
      → Faithful rest
      → Faithful (judge world node target plan_hash node_hash opts m rest)
  unfolding judge
  judge-Faithful m rest q = elim (Bool-cases opts.observe) [
    | inl y ↦ rw y (inl refl)
    | inr n ↦ elim (Bool-cases m) [ inl y ↦ rw (n, y) (inl refl) | inr k ↦ rw (n, k) q ]
  ]

  after_probe-Faithful :
      (observed : Option Fields) (desired : Fields) (rest : Ran)
      → Faithful rest
      → Faithful (after_probe world node target plan_hash node_hash opts observed desired rest)
  unfolding after_probe
  after_probe-Faithful none desired rest q = q
  after_probe-Faithful (some state) desired rest q =
      judge-Faithful (compare_state world.floats state desired).0 rest q

  probed-Faithful :
      (probe desired : Option Fields) (rest : Ran)
      → Faithful rest
      → Faithful (probed world node target plan_hash node_hash opts probe desired rest)
  unfolding probed
  probed-Faithful (some probe) (some desired) rest q =
      after_probe-Faithful (run_probe world node target plan_hash node_hash opts probe).1 desired
        rest q
  probed-Faithful none desired rest q = q
  probed-Faithful (some probe) none rest q = q

  with_inputs-Faithful :
      (inputs : Result SecretError Fields)
      → Faithful (with_inputs world node target plan_hash node_hash opts inputs)
  unfolding with_inputs
  with_inputs-Faithful (err e) = inl refl
  with_inputs-Faithful (ok inputs) =
      probed-Faithful node.probe node.desired _ (dispatch-Faithful inputs)

  pub run_node-Faithful : Faithful (run_node world node target plan_hash node_hash opts)
  unfolding run_node
  run_node-Faithful =
      with_inputs-Faithful (resolved_inputs world node target plan_hash node_hash opts)

  -- No input of a recorded entry is the placeholder of a secret, whichever its key. The values
  -- inside of lists and maps are not looked at.
  pub run_node-NoPlaceholder :
      All
        (λ e. NoPlaceholder e.inputs)
        (run_node world node target plan_hash node_hash opts).recorded
  run_node-NoPlaceholder = elim run_node-Faithful [
    | inl n ↦ rw n tt
    | inr (x, hash, cs, req, res, y, is, failed) ↦
        rw is (redacted-NoPlaceholder (inputs_for node target x) node.requires_secrets, tt)
  ]
