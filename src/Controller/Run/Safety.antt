-- ===== src/Controller/Run/Safety.antt =====
-- The statuses of the nodes in the states of a run: what each step of the scheduler does to them.
use dotdevops.Prelude.{
  ◌+◌, ◌<◌, String, ◌≡◌, ◌≢◌, refl, sym, ap, subst, true, false, some, List, [], ◌∷◌, ◌++◌, arith,
  ◌==◌, ◌&&◌, inl, inr, eq_iff, eq_refl, mem, count, count-erase, count-append, count_pos_of_mem,
  Map, is_empty, Bool-cases,
}
use dotdevops.Prelude.Int.{pos}
use dotdevops.Plan.Schema.{Node, ids}
use dotdevops.Controller.Graph.{Graph}
use dotdevops.Controller.Graph.Loop.{mem_of_pending-zero}
use dotdevops.Controller.Graph.Correct.{Represents, deps_of}
use dotdevops.Controller.Run.{
  RunState, Status, pending, skipped, failed, applied, TargetResult, Start, run, begin, begin_as,
  start_of, finish, errors, collect, Step, find_node, any_blocking, is_blocking, dispatch, start,
  stop, receive,
}
use dotdevops.Controller.Run.Order.{count-in_flight, Flow}
use dotdevops.Controller.Run.Settled.{Settled, Sets, Sets-Settled}

not-blocking :
    (states : Map Status) (deps : List String) (d : String)
    → any_blocking states deps ≡ false
    → mem d deps ≡ true
    → is_blocking (states d) ≡ false
unfolding any_blocking
not-blocking states [] d h m = ground arith
not-blocking states (x ∷ deps) d h m = elim (Bool-cases (x == d)) [
  | inl e ↦ subst (λ y. is_blocking (states y) ≡ false) ((eq_iff x d).0 e) (ground arith)
  | inr e ↦ not-blocking states deps d (ground arith) (ground arith)
]

deps_of_found :
    (ns : List Node) (v : String) {n : Node} → find_node ns v ≡ some n → deps_of ns v ≡ n.depends_on
unfolding find_node
deps_of_found [] v h = cc
deps_of_found (m ∷ ns) v {n} h = elim (Bool-cases (m.id == v)) [
  | inl e ↦ let same : m ≡ n = ground arith in ground (arith, ap (λ (x : Node). x.depends_on) same)
  | inr e ↦ ground (arith, deps_of_found ns v {n = n} (ground arith))
]

is_empty-append : (xs ys : List String) → is_empty (xs ++ ys) ≡ (is_empty xs && is_empty ys)
is_empty-append [] ys = refl
is_empty-append (x ∷ xs) ys = refl

is-applied : (st : Status) → st ≢ pending → is_blocking st ≡ false → st ≡ applied
is-applied pending a b = absurd (a refl)
is-applied skipped a b = cc
is-applied failed a b = cc
is-applied applied a b = refl

module _ (nodes : List Node) (g : Graph) (rep : Represents nodes g) (targets : List String) where
  alone :
      (s : RunState) (v : String)
      → Flow nodes g rep targets s
      → 0 < count v s.started + count v s.executing
      → count v s.done + count v s.collected ≡ 0
  alone s v flow h = omega (arith, flow.once v, count-in_flight v s)

  deps_listed : (n : Node) → find_node g.nodes n.id ≡ some n → deps_of nodes n.id ≡ n.depends_on
  deps_listed n found =
      deps_of_found nodes n.id
        (subst (λ (l : List Node). find_node l n.id ≡ some n) rep.same_nodes found)

  skip-Sets :
      (st : Start) (n : Node) (s : RunState)
      → (st ≡ run → ⊥)
      → Flow nodes g rep targets s
      → Settled nodes s
      → mem n.id s.started ≡ true
      → Sets nodes s (begin_as st targets n s) n.id skipped
  unfolding begin_as
  skip-Sets run n s other flow old m = absurd (other refl)
  skip-Sets st n s other flow old m = record {
    was = old.waiting n.id (alone s n.id flow (ground (arith, count_pos_of_mem n.id s.started)));
    states = λ v. refl;
    final = λ e. cc;
    moved = λ v. ground (arith, count-append v s.done (n.id ∷ []));
    executing = λ v. omega arith;
    allowed = λ h. cc;
    errs = λ h. h;
    failure = λ e. cc;
    blame = λ h. inl h;
  }

  -- The dependencies of a node that leaves its first lock to run are applied.
  cleared :
      (n : Node) (s : RunState)
      → find_node g.nodes n.id ≡ some n
      → Flow nodes g rep targets s
      → Settled nodes s
      → mem n.id s.started ≡ true
      → start_of n s ≡ run
      → (d : String) → mem d (deps_of nodes n.id) ≡ true
      → s.node_states d ≡ applied
  unfolding start_of
  cleared n s found flow old m h d md =
      is-applied (s.node_states d)
        (old.ended d (omega (arith, count_pos_of_mem d s.collected behind)))
        (not-blocking s.node_states n.depends_on d (ground arith) (rw (deps_listed n found) at md))
    where
      here : (mem n.id (ids nodes) ≡ true) × (s.in_degree n.id ≡ pos 0)
      here =
          flow.settled n.id
            (omega (arith, count-in_flight n.id s, count_pos_of_mem n.id s.started m))

      behind : mem d s.collected ≡ true
      behind =
          mem_of_pending-zero d s.collected (deps_of nodes n.id)
            (ground (arith, flow.counted n.id here.0, here.1)) md

  finish-Sets :
      (n : Node) (results : List TargetResult) (s : RunState)
      → Flow nodes g rep targets s
      → Settled nodes s
      → mem n.id s.executing ≡ true
      → Sets nodes s (finish n results s) n.id ((finish n results s).node_states n.id)
  unfolding finish
  finish-Sets n results s flow old m = record {
    was = old.waiting n.id (alone s n.id flow (ground (arith, count_pos_of_mem n.id s.executing)));
    states = λ v. ground (arith, eq_refl n.id);
    final = λ e. ground (arith, eq_refl n.id);
    moved = λ v. ground (arith, count-append v s.done (n.id ∷ []));
    executing =
        λ v. ground (arith, count-erase v n.id s.executing, count_pos_of_mem n.id s.executing m);
    allowed = λ h d md. old.running n.id d (count_pos_of_mem n.id s.executing m) md;
    errs = λ h. ground (arith, is_empty-append s.errs (errors results));
    failure = λ e. ground (arith, eq_refl n.id, is_empty-append s.errs (errors results));
    blame = λ h. ground (arith, eq_refl n.id, is_empty-append s.errs (errors results));
  }

  begin-Settled :
      (st : Start) (n : Node) (s : RunState)
      → start_of n s ≡ st
      → find_node g.nodes n.id ≡ some n
      → Flow nodes g rep targets s
      → Settled nodes s
      → mem n.id s.started ≡ true
      → Settled nodes (begin_as st targets n s)
  unfolding begin_as
  begin-Settled run n s h found flow old m = record {
    waiting = old.waiting;
    ended = old.ended;
    running = λ v d c md.
        let ready = cleared n s found flow old m h d in
        elim (Bool-cases (n.id == v)) [
          | inl e ↦
              ready (subst (λ x. mem d (deps_of nodes x) ≡ true) (sym ((eq_iff n.id v).0 e)) md)
          | inr e ↦ old.running v d (ground arith) md
        ];
    run_after = old.run_after;
    reported = old.reported;
    blamed = old.blamed;
  }
  begin-Settled st n s h found flow old m =
      Sets-Settled nodes (skip-Sets st n s (λ e. cc) flow old m) old

  pub Step-Settled :
      {s s' : RunState}
      → Step g targets s s'
      → Flow nodes g rep targets s
      → Settled nodes s
      → Settled nodes s'
  unfolding begin collect
  Step-Settled (dispatch id ready e) flow old = record {
    waiting = old.waiting;
    ended = old.ended;
    running = old.running;
    run_after = old.run_after;
    reported = old.reported;
    blamed = old.blamed;
  }
  Step-Settled {s} (start n found m) flow old =
      begin-Settled (start_of n s) n s refl found flow old m
  Step-Settled {s} (stop n results found m) flow old =
      Sets-Settled nodes (finish-Sets n results s flow old m) old
  Step-Settled {s} (receive id done e) flow old = record {
    waiting = λ v h. old.waiting v (ground (arith, ap (count v) e));
    ended = λ v h. old.ended v (ground (arith, ap (count v) e));
    running = old.running;
    run_after = old.run_after;
    reported = old.reported;
    blamed = old.blamed;
  }
