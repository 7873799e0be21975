-- ===== src/Controller/Run/Progress.antt =====
-- The steps that the scheduler has left in a state, and which one it can make.
use dotdevops.Prelude.{
  ℕ, ◌+◌, ◌*◌, ◌≤◌, ◌<◌, String, ◌≡◌, refl, sym, ap, subst, true, some, List, [], ◌∷◌, ◌++◌, arith,
  ◌==◌, ◌⊎◌, inl, inr, eq_iff, eq_refl, mem, count, length, length-append, count-append,
  count_pos_of_mem, mem_of_count_pos, count-eq-zero, length-le_of_counts, Bool-cases,
}
use dotdevops.Plan.Schema.{Node, ids}
use dotdevops.Controller.Graph.{Graph}
use dotdevops.Controller.Graph.Loop.{IsOrdered, pending, pending-zero_of_subset}
use dotdevops.Controller.Graph.Correct.{Represents, Visits, IsTopological, deps_of, length-ids}
use dotdevops.Controller.Run.{
  RunState, initial, begin, finish, collect, Step, Reach, find_node, dispatch, start, stop, receive,
}
use dotdevops.Controller.Run.Order.{in_flight, count-in_flight, Flow, initial-Flow, Reach-Flow}
use dotdevops.Controller.Run.Weight.{weight, Reach-weight}

find_of_mem :
    (ns : List Node) (v : String)
    → mem v (ids ns) ≡ true
    → (n : Node) × (find_node ns v ≡ some n) × (n.id ≡ v)
unfolding find_node
find_of_mem [] v h = absurd (cc)
find_of_mem (n ∷ ns) v h = elim (Bool-cases (n.id == v)) [
  | inl e ↦ (n, ground arith, (eq_iff n.id v).0 e)
  | inr e ↦ let (m, found, same) = find_of_mem ns v (ground arith) in (m, ground arith, same)
]

module _ (nodes : List Node) (g : Graph) (rep : Represents nodes g) (targets : List String) where
  flight-le :
      (s : RunState)
      → Flow nodes g rep targets s
      → length (in_flight s) + length s.collected ≤ length nodes
  flight-le s flow = omega (
    arith,
    length-append (in_flight s) s.collected,
    length-ids nodes,
    length-le_of_counts (in_flight s ++ s.collected) (ids nodes) (λ v. ground (
      arith,
      count-append v (in_flight s) s.collected,
      flow.once v,
      flow.settled v,
      count_pos_of_mem v (ids nodes),
    )),
  )

  weight-le : (s : RunState) → Flow nodes g rep targets s → weight s ≤ 5 * length nodes
  weight-le s flow = omega (
    arith,
    flight-le s flow,
    length-append (s.started ++ s.executing ++ s.done) s.ready,
    length-append (s.started ++ s.executing) s.done,
    length-append s.started s.executing,
  )

  module _ (order : List String) (visits : Visits order nodes) where
    -- A run makes at most five steps for each node, whatever their order and whatever the targets
    -- answer.
    pub run_ends :
        {k : ℕ} {s : RunState} → Reach g targets (initial order g) k s → k ≤ 5 * length nodes
    run_ends {k} {s} r = omega (
      arith,
      Reach-weight r,
      weight-le s
          (Reach-Flow nodes g rep targets (initial-Flow nodes g rep targets order visits) r),
    )

    -- The channels never hold more ids than they have room for.
    pub channels_fit :
        {k : ℕ} {s : RunState}
        → Reach g targets (initial order g) k s
        → (length s.ready ≤ length nodes) × (length s.done ≤ length nodes)
    channels_fit {k} {s} r = omega (
      arith,
      flight-le s
          (Reach-Flow nodes g rep targets (initial-Flow nodes g rep targets order visits) r),
      length-append (s.started ++ s.executing ++ s.done) s.ready,
      length-append (s.started ++ s.executing) s.done,
    )

  settled_node :
      (s : RunState) (v : String)
      → Flow nodes g rep targets s
      → 0 < count v (in_flight s)
      → (n : Node) × (find_node g.nodes n.id ≡ some n) × (n.id ≡ v)
  settled_node s v flow h =
      let (n, found, same) = find_of_mem g.nodes v (
        subst (λ (l : List Node). mem v (ids l) ≡ true) (sym rep.same_nodes)
          (flow.settled v (omega arith)).0) in
      (n, rw same found, same)

  -- With nothing in flight every node is collected, since the graph has a topological order.
  idle_complete :
      (s : RunState) (final : List String)
      → Flow nodes g rep targets s
      → in_flight s ≡ []
      → IsOrdered (deps_of nodes) final
      → ((v : String) → mem v final ≡ true → mem v (ids nodes) ≡ true)
      → (v : String) → mem v final ≡ true
      → mem v s.collected ≡ true
  idle_complete s [] flow idle o known v m = absurd (cc)
  idle_complete s (u ∷ final) flow idle o known v m =
      let earlier : (w : String) → mem w final ≡ true → mem w s.collected ≡ true =
        λ w k. idle_complete s final flow idle o.1 (λ x y. known x (ground arith)) w k in
      let clear : pending s.collected (deps_of nodes u) ≡ 0 =
        pending-zero_of_subset s.collected (deps_of nodes u) (λ d md. earlier d (o.0 d md)) in
      let member : mem u (ids nodes) ≡ true = known u (ground (arith, eq_refl u)) in
      let taken : 0 < count u (in_flight s) + count u s.collected =
        flow.found u member (ground (arith, flow.counted u member, clear)) in
      let here : mem u s.collected ≡ true =
        mem_of_count_pos u s.collected (ground (arith, ap (count u) idle, taken)) in
      elim (Bool-cases (u == v)) [
        | inl e ↦ subst (λ w. mem w s.collected ≡ true) ((eq_iff u v).0 e) here
        | inr e ↦ earlier v (ground arith)
      ]

  all_collected :
      (s : RunState) (final : List String)
      → Flow nodes g rep targets s
      → IsTopological nodes final
      → in_flight s ≡ []
      → length s.collected ≡ length nodes
  all_collected s final flow top idle =
      let down : length (ids nodes) ≤ length s.collected =
        length-le_of_counts (ids nodes) s.collected (λ v. ground (
          arith,
          rep.single v,
          top.complete v,
          mem_of_count_pos v final,
          count_pos_of_mem v s.collected,
          idle_complete s final flow idle top.ordered
              (λ w m.
                mem_of_count_pos w (ids nodes)
                  (ground (arith, top.complete w, count_pos_of_mem w final m)))
              v,
        )) in
      omega (arith, flight-le s flow, length-ids nodes)

  -- A step is possible from a state with something in flight.
  moves :
      (s : RunState) (v : String)
      → Flow nodes g rep targets s
      → 0 < count v (in_flight s)
      → (s' : RunState) × Step g targets s s'
  moves s v flow h = by_queue s.ready refl
    where
      by_done :
          (l : List String)
          → s.done ≡ l
          → count v s.started ≡ 0
          → count v s.executing ≡ 0
          → count v s.ready ≡ 0
          → (s' : RunState) × Step g targets s s'
      by_done [] e a b c = absurd (omega (arith, count-in_flight v s, ap (count v) e))
      by_done (id ∷ done) e a b c = (collect g id done s, receive id done e)

      by_thread : s.ready ≡ [] → (s' : RunState) × Step g targets s s'
      by_thread none_ready =
          let (n, found, same) = settled_node s v flow h in
          elim (Bool-cases (mem n.id s.started)) [
            | inl m ↦ (begin targets n s, start n found m)
            | inr a ↦ elim (Bool-cases (mem n.id s.executing)) [
              | inl m ↦ (finish n [] s, stop n [] found m)
              | inr b ↦
                  by_done s.done refl (rw same at (count-eq-zero n.id s.started a))
                    (rw same at (count-eq-zero n.id s.executing b)) (ap (count v) none_ready)
            ]
          ]

      by_queue : (l : List String) → s.ready ≡ l → (s' : RunState) × Step g targets s s'
      by_queue [] e = by_thread e
      by_queue (id ∷ ready) e =
          (record s { ready = ready; started = id ∷ s.started }, dispatch id ready e)

  -- In every state that a run of a plan with nodes and an acyclic graph comes to, the main loop has
  -- collected all nodes, one at least, behind the last of which it ends, or some step is possible.
  pub run_progress :
      (order : List String)
      → Visits order nodes
      → (final : List String) → IsTopological nodes final
      → 0 < length nodes
      → {k : ℕ} {s : RunState} → Reach g targets (initial order g) k s
      → ((length s.collected ≡ length nodes) × (0 < length s.collected))
        ⊎ ((s' : RunState) × Step g targets s s')
  run_progress order visits final top some_node {k} {s} r =
      by_flight (in_flight s) refl
        (Reach-Flow nodes g rep targets (initial-Flow nodes g rep targets order visits) r)
    where
      by_flight :
          (l : List String)
          → in_flight s ≡ l
          → Flow nodes g rep targets s
          → ((length s.collected ≡ length nodes) × (0 < length s.collected))
            ⊎ ((s' : RunState) × Step g targets s s')
      by_flight [] e flow = let all = all_collected s final flow top e in inl (all, omega arith)
      by_flight (v ∷ l) e flow = inr (moves s v flow (ground (arith, ap (count v) e, eq_refl v)))
