-- ===== src/Controller/Run/Order.antt =====
-- The scheduler's in-degrees, queue and channel, under the invariant of the graph's loop for what
-- is collected and what is in flight.
use mathlib.Core.List.{append_assoc}
use dotdevops.Prelude.{
  ℕ, ◌+◌, String, ◌≡◌, refl, ap, subst, Bool, true, false, List, [], ◌∷◌, ◌++◌, arith, mem, count,
  count-erase, count-append, count_pos_of_mem, Map, update, if◌then◌else◌,
}
use dotdevops.Prelude.Int.{ℤ, pred, is_zero}
use dotdevops.Plan.Schema.{Node, ids}
use dotdevops.Controller.Graph.{Graph, release}
use dotdevops.Controller.Graph.Loop.{Inv, release-Inv, take-Inv}
use dotdevops.Controller.Graph.Correct.{Represents, Visits, deps_of, mirrors, start_Inv}
use dotdevops.Controller.Run.{
  RunState, TargetResult, Start, run, initial, begin, begin_as, start_of, finish, collect, Step,
  Reach, dispatch, start, stop, receive, here, next, timeout,
}

-- The nodes that are queued or running, or that the main loop has not received yet.
abbrev pub in_flight : RunState → List String
in_flight s = (s.started ++ s.executing ++ s.done) ++ s.ready

-- `release` only appends to the queue.
release-append :
    (vs : List String) (deg : Map ℤ) (p q : List String)
    → release vs deg (p ++ q) ≡ ((release vs deg q).0, p ++ (release vs deg q).1)
unfolding release
release-append [] deg p q = refl
release-append (v ∷ vs) deg p q =
    go (is_zero (update deg v (pred (deg v)) v)) (release-append vs (update deg v (pred (deg v))) p)
  where
    go :
        (b : Bool)
        → ((q' : List String)
            → release vs (update deg v (pred (deg v))) (p ++ q') ≡ (
              (release vs (update deg v (pred (deg v))) q').0,
              p ++ (release vs (update deg v (pred (deg v))) q').1,
            ))
        → release vs (update deg v (pred (deg v))) (if b then (p ++ q) ++ v ∷ [] else p ++ q) ≡ (
          (release vs (update deg v (pred (deg v))) (if b then q ++ v ∷ [] else q)).0,
          p ++ (release vs (update deg v (pred (deg v))) (if b then q ++ v ∷ [] else q)).1,
        )
    go true ih = rw append_assoc (ih (q ++ v ∷ []))
    go false ih = ih q

module _ {ids : List String} {deps edges : Map (List String)} where
  Inv-perm :
      {done queue queue' rest : List String} {deg : Map ℤ}
      → ((v : String) → count v queue' ≡ count v queue)
      → Inv ids deps edges done queue rest deg
      → Inv ids deps edges done queue' rest deg
  Inv-perm same inv = record {
    counted = inv.counted;
    known = inv.known;
    found = λ v m z. ground (arith, inv.found v m z, same v);
    settled = λ v h. inv.settled v (ground (arith, same v));
    once = λ v. ground (arith, inv.once v, same v);
    ordered = inv.ordered;
  }

pub count-in_flight :
    (v : String) (s : RunState)
    → count v (in_flight s)
      ≡ count v s.started + count v s.executing + count v s.done + count v s.ready
count-in_flight v s = omega (
  arith,
  count-append v (s.started ++ s.executing ++ s.done) s.ready,
  count-append v (s.started ++ s.executing) s.done,
  count-append v s.started s.executing,
)

module _ (nodes : List Node) (g : Graph) (rep : Represents nodes g) (targets : List String) where
  -- Kahn's invariant, of the collected nodes and of those in flight.
  abbrev pub Flow : RunState → Type 0
  Flow s = Inv (ids nodes) (deps_of nodes) g.edges s.collected (in_flight s) [] s.in_degree

  pub initial-Flow : (order : List String) → Visits order nodes → Flow (initial order g)
  unfolding initial
  initial-Flow order visits = start_Inv order nodes visits g rep

  -- What a step of a goroutine leaves in flight and collected.
  record Moves (s s' : RunState) : Type 0 where
    collected : s'.collected ≡ s.collected
    in_degree : s'.in_degree ≡ s.in_degree
    flight : (v : String) → count v (in_flight s') ≡ count v (in_flight s)

  begin-Moves :
      (st : Start) (n : Node) (s : RunState)
      → mem n.id s.started ≡ true
      → Moves s (begin_as st targets n s)
  unfolding begin_as
  begin-Moves run n s m = record {
    collected = refl;
    in_degree = refl;
    flight = λ v. ground (
      arith,
      count-in_flight v (begin_as run targets n s),
      count-in_flight v s,
      count-erase v n.id s.started,
      count_pos_of_mem n.id s.started m,
    );
  }
  begin-Moves st n s m = record {
    collected = refl;
    in_degree = refl;
    flight = λ v. ground (
      arith,
      count-in_flight v (begin_as st targets n s),
      count-in_flight v s,
      count-erase v n.id s.started,
      count_pos_of_mem n.id s.started m,
      count-append v s.done (n.id ∷ []),
    );
  }

  finish-Moves :
      (n : Node) (results : List TargetResult) (s : RunState)
      → mem n.id s.executing ≡ true
      → Moves s (finish n results s)
  unfolding finish
  finish-Moves n results s m = record {
    collected = refl;
    in_degree = refl;
    flight = λ v. ground (
      arith,
      count-in_flight v (finish n results s),
      count-in_flight v s,
      count-erase v n.id s.executing,
      count_pos_of_mem n.id s.executing m,
      count-append v s.done (n.id ∷ []),
    );
  }

  Moves-Flow : {s s' : RunState} → Moves s s' → Flow s → Flow s'
  Moves-Flow {s} {s'} m flow = rw (m.collected, m.in_degree) (Inv-perm m.flight flow)

  collect-Flow :
      (id : String) (done : List String) (s : RunState)
      → s.done ≡ id ∷ done
      → Flow s
      → Flow (collect g id done s)
  unfolding collect
  collect-Flow id done s e flow =
      subst
        (λ (r : Map ℤ × List String).
          Inv (ids nodes) (deps_of nodes) g.edges (id ∷ s.collected) r.1 [] r.0)
        (release-append (g.edges id) s.in_degree (s.started ++ s.executing ++ done) s.ready)
        (release-Inv (ids nodes) (deps_of nodes) g.edges (id ∷ s.collected) (g.edges id) rest
          s.in_degree
          (take-Inv (ids nodes) (deps_of nodes) g.edges (mirrors nodes g rep) s.collected rest id
            s.in_degree (Inv-perm same flow)))
    where
      rest : List String
      rest = (s.started ++ s.executing ++ done) ++ s.ready

      same : (v : String) → count v (id ∷ rest) ≡ count v (in_flight s)
      same v =
          ground (
            arith,
            count-in_flight v s,
            count-in_flight v (record s { done = done }),
            ap (count v) e,
          )

  -- Every step keeps the invariant.
  pub Step-Flow : {s s' : RunState} → Step g targets s s' → Flow s → Flow s'
  unfolding begin
  Step-Flow {s} (dispatch id ready e) flow =
      Inv-perm
        (λ v. ground (
          arith,
          count-in_flight v (record s { ready = ready; started = id ∷ s.started }),
          count-in_flight v s,
          ap (count v) e,
        ))
        flow
  Step-Flow {s} (start n found m) flow = Moves-Flow (begin-Moves (start_of n s) n s m) flow
  Step-Flow {s} (stop n results found m) flow = Moves-Flow (finish-Moves n results s m) flow
  Step-Flow {s} (receive id done e) flow = collect-Flow id done s e flow

  pub Reach-Flow : {s₀ s : RunState} {k : ℕ} → Flow s₀ → Reach g targets s₀ k s → Flow s
  Reach-Flow h here = h
  Reach-Flow h (next r st) = Step-Flow st (Reach-Flow h r)
  Reach-Flow h (timeout r) = Reach-Flow h r
