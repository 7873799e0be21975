-- ===== src/Controller/Run/Verdict.antt =====
-- What holds in every state that `Run` comes to, and what it returns.
use dotdevops.Prelude.{
  ℕ, ◌+◌, ◌<◌, String, ◌≡◌, ◌↔◌, ◌⊎◌, refl, inl, inr, true, none, List, arith, mem, count, length,
  is_empty, count_pos_of_mem, counts-eq_of_length, Bool-cases,
}
use dotdevops.Plan.Schema.{Node, ids}
use dotdevops.Controller.Graph.{Graph}
use dotdevops.Controller.Graph.Loop.{count-le-ids}
use dotdevops.Controller.Graph.Correct.{Represents, Visits, deps_of, length-ids}
use dotdevops.Controller.Run.{
  RunState, skipped, applied, initial, verdict, Reach, here, next, timeout,
}
use dotdevops.Controller.Run.Order.{count-in_flight, Flow, initial-Flow, Reach-Flow}
use dotdevops.Controller.Run.Settled.{Settled, has_run}
use dotdevops.Controller.Run.Safety.{Step-Settled}

module _ (nodes : List Node) (g : Graph) (rep : Represents nodes g) (targets order : List String)
    (visits : Visits order nodes) where
  initial-Settled : Settled nodes (initial order g)
  unfolding initial
  initial-Settled = record {
    waiting = λ v h. refl;
    ended = λ v h. absurd (omega arith);
    running = λ v d h. absurd (omega arith);
    run_after = λ v d h. cc;
    reported = λ v h. cc;
    blamed = λ h. cc;
  }

  Reach-Settled : {k : ℕ} {s : RunState} → Reach g targets (initial order g) k s → Settled nodes s
  Reach-Settled here = initial-Settled
  Reach-Settled (next r st) =
      Step-Settled nodes g rep targets st
        (Reach-Flow nodes g rep targets (initial-Flow nodes g rep targets order visits) r)
        (Reach-Settled r)
  Reach-Settled (timeout r) =
      let old = Reach-Settled r in
      record {
        waiting = old.waiting;
        ended = old.ended;
        running = old.running;
        run_after = old.run_after;
        reported = old.reported;
        blamed = old.blamed;
      }

  module _ {k : ℕ} {s : RunState} (r : Reach g targets (initial order g) k s) where
    flow : Flow nodes g rep targets s
    flow = Reach-Flow nodes g rep targets (initial-Flow nodes g rep targets order visits) r

    -- While a node runs its targets, and once it has, each node that it depends on is applied.
    pub run_after_deps :
        (v d : String)
        → mem d (deps_of nodes v) ≡ true
        → (0 < count v s.executing) ⊎ (has_run (s.node_states v) ≡ true)
        → s.node_states d ≡ applied
    run_after_deps v d m h = elim h [
      | inl now ↦ (Reach-Settled r).running v d now m
      | inr ran ↦ (Reach-Settled r).run_after v d ran m
    ]

    -- Once all nodes are collected, Run returns no error exactly if each was applied or skipped.
    pub run_verdict :
        length s.collected ≡ length nodes
        → (verdict s ≡ none) ↔ (
            (v : String)
            → mem v (ids nodes) ≡ true
            → (s.node_states v ≡ applied) ⊎ (s.node_states v ≡ skipped))
    unfolding verdict
    run_verdict all = (
      λ h v m.
          let there : 0 < count v s.done + count v s.collected = omega (
            arith,
            count_pos_of_mem v (ids nodes) m,
            counts-eq_of_length s.collected (ids nodes)
                (λ w. count-le-ids (ids nodes) (deps_of nodes) g.edges w flow)
                (omega (arith, length-ids nodes)) v,
          ) in
          ground (arith, (Reach-Settled r).ended v there, (Reach-Settled r).reported v),
      λ h. elim (Bool-cases (is_empty s.errs)) [
        | inl e ↦ rw e
        | inr e ↦
            let (v, bad) = (Reach-Settled r).blamed e in
            let there : 0 < count v s.done + count v s.collected =
              ground (arith, (Reach-Settled r).waiting v) in
            ground (arith, h v (flow.settled v (omega (arith, count-in_flight v s))).0)
      ],
    )
