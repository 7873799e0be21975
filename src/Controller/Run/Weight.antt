-- ===== src/Controller/Run/Weight.antt =====
-- How far a run has come: each step of the scheduler moves a node on.
use dotdevops.Prelude.{
  ℕ, ◌+◌, ◌*◌, ◌≤◌, ◌<◌, String, ◌≡◌, ap, true, List, [], ◌∷◌, ◌++◌, arith, mem, length,
  length-append, length-erase, count_pos_of_mem, Map, update, if◌then◌else◌,
}
use dotdevops.Prelude.Int.{ℤ, pred, is_zero}
use dotdevops.Plan.Schema.{Node}
use dotdevops.Controller.Graph.{Graph, release}
use dotdevops.Controller.Run.{
  RunState, Start, run, begin, begin_as, start_of, finish, collect, Step, Reach, dispatch, start,
  stop, receive, here, next, timeout,
}

-- How far the nodes have come, five stations each.
abbrev pub weight : RunState → ℕ
weight s =
    length s.ready
    + 2 * length s.started
    + 3 * length s.executing
    + 4 * length s.done
    + 5 * length s.collected

length-release :
    (vs : List String) (deg : Map ℤ) (queue : List String)
    → length queue ≤ length (release vs deg queue).1
unfolding release
length-release [] deg queue = omega arith
length-release (v ∷ vs) deg queue =
    let deg' : Map ℤ = update deg v (pred (deg v)) in
    ground (
      arith,
      length-release vs deg' (if is_zero (deg' v) then queue ++ v ∷ [] else queue),
      length-append queue (v ∷ []),
    )

begin-weight :
    (st : Start) (targets : List String) (n : Node) (s : RunState)
    → mem n.id s.started ≡ true
    → weight s < weight (begin_as st targets n s)
unfolding begin_as
begin-weight run targets n s m =
    omega (arith, length-erase n.id s.started (count_pos_of_mem n.id s.started m))
begin-weight st targets n s m = omega (
  arith,
  length-erase n.id s.started (count_pos_of_mem n.id s.started m),
  length-append s.done (n.id ∷ []),
)

Step-weight :
    {g : Graph} {targets : List String} {s s' : RunState}
    → Step g targets s s'
    → weight s < weight s'
unfolding begin finish collect
Step-weight {s = s} (dispatch id ready e) = omega (arith, ap (λ (l : List String). length l) e)
Step-weight {targets = targets} {s = s} (start n found m) =
    begin-weight (start_of n s) targets n s m
Step-weight {s = s} (stop n results found m) = omega (
  arith,
  length-erase n.id s.executing (count_pos_of_mem n.id s.executing m),
  length-append s.done (n.id ∷ []),
)
Step-weight {g = g} {s = s} (receive id done e) =
    omega
      (arith, ap (λ (l : List String). length l) e, length-release (g.edges id) s.in_degree s.ready)

pub Reach-weight :
    {g : Graph} {targets : List String} {s₀ s : RunState} {k : ℕ}
    → Reach g targets s₀ k s
    → weight s₀ + k ≤ weight s
Reach-weight here = omega arith
Reach-weight (next r st) = omega (arith, Reach-weight r, Step-weight st)
Reach-weight (timeout r) = Reach-weight r
