-- ===== src/Controller/Run.antt =====
-- The scheduler in `Run` of internal/controller/orchestrator.go, as steps on what its goroutines
-- share. A goroutine's work under the mutex is one step; the order of the steps is free. What the
-- targets of a node answer is the environment's choice here: Controller/Target.antt has the code
-- that runs one target.
pub mod Order
pub mod Weight
pub mod Progress
pub mod Settled
pub mod Safety
pub mod Verdict
use dotdevops.Prelude.{
  ℕ, suc, ◌+◌, String, ◌≡◌, Bool, true, false, not, ◌&&◌, ◌||◌, Option, none, some, List, [], ◌∷◌,
  ◌++◌, ◌==◌, mem, erase, is_empty, length, has, Map, update, map, if◌then◌else◌,
}
use dotdevops.Prelude.Int.{ℤ}
use dotdevops.Plan.Schema.{Node, Target, WhenCondition, ids}
use dotdevops.Controller.Graph.{Graph, release, roots}

-- The values of `nodeStates`.
pub data Status : Type 0 where
  pending skipped failed applied : Status

-- What one target of a node answers; a cancelled target answers nothing, as one without changes.
pub record TargetResult : Type 0 where
  pub changed : Bool
  pub error : Option String

-- `started` are the goroutines that have not taken the mutex yet, `executing` those that run their
-- targets, `done` the channel `doneChan`, and `collected` what the main loop has received from it,
-- the newest first; its length is `completed`. `skips` are the calls of store.Record for skipped
-- targets, `rollbacks` counts the calls of RollbackLast.
pub record RunState : Type 0 where
  pub node_states : Map Status
  pub node_changed : Map Bool
  pub in_degree : Map ℤ
  pub halt : Bool
  pub cancelled : Bool
  pub errs : List String
  pub ready : List String
  pub started : List String
  pub executing : List String
  pub done : List String
  pub collected : List String
  pub skips : List (String × String)
  pub rollbacks : ℕ

unfoldable pub initial : List String → Graph → RunState
initial order g = record {
  node_states = λ _. pending;
  node_changed = λ _. false;
  in_degree = g.in_degree;
  halt = false;
  cancelled = false;
  errs = [];
  ready = roots order g.in_degree;
  started = [];
  executing = [];
  done = [];
  collected = [];
  skips = [];
  rollbacks = 0;
}

-- st == "failed" || st == "skipped"
abbrev pub is_blocking : Status → Bool
is_blocking skipped = true
is_blocking failed = true
is_blocking _ = false

-- the loop over `node.DependsOn`
unfoldable pub any_blocking : Map Status → List String → Bool
any_blocking states [] = false
any_blocking states (d ∷ deps) = is_blocking (states d) || any_blocking states deps

abbrev same_bool : Bool → Bool → Bool
same_bool true b = b
same_bool false b = not b

-- The condition `when` is not met.
unfoldable pub unmet : Map Bool → Option WhenCondition → Bool
unmet changed none = false
unmet changed (some w) = not (same_bool (changed w.node) w.changed)

-- What a goroutine decides under its first lock.
pub data Start : Type 0 where
  halted blocked condition run : Start

unfoldable pub start_of : Node → RunState → Start
unfolding any_blocking unmet
start_of n s =
    if s.halt
    then halted
    else if any_blocking s.node_states n.depends_on
    then blocked
    else if unmet s.node_changed n.when
    then condition
    else run

unfoldable pub known_targets : List String → List String → List String
known_targets all [] = []
known_targets all (t ∷ ts) = if mem t all then t ∷ known_targets all ts else known_targets all ts

unfoldable pub skip : Node → RunState → RunState
skip n s = record s {
  node_states = update s.node_states n.id skipped;
  started = erase n.id s.started;
  done = s.done ++ n.id ∷ [];
}

-- The step of a goroutine up to the start of its targets; `targets` are the ids in `targetMap`.
unfoldable pub begin_as : Start → List String → Node → RunState → RunState
unfolding skip known_targets
begin_as halted targets n s = skip n s
begin_as run targets n s = record s {
  started = erase n.id s.started;
  executing = n.id ∷ s.executing;
}
begin_as _ targets n s = record (skip n s) {
  skips = s.skips ++ map (λ t. (n.id, t)) (known_targets targets n.targets);
}

unfoldable pub begin : List String → Node → RunState → RunState
unfolding start_of begin_as
begin targets n s = begin_as (start_of n s) targets n s

unfoldable pub errors : List TargetResult → List String
errors [] = []
errors (r ∷ rs) = elim r.error [ none ↦ errors rs | some e ↦ e ∷ errors rs ]

unfoldable pub any_changed : List TargetResult → Bool
any_changed [] = false
any_changed (r ∷ rs) = r.changed || any_changed rs

-- the failure policy, where "" is "halt", is "halt" or "rollback"
unfoldable pub halts : String → Bool
halts policy = (policy == "" || policy == "halt") || policy == "rollback"

-- The step of a goroutine behind `targetWg.Wait()`.
unfoldable pub finish : Node → List TargetResult → RunState → RunState
unfolding errors any_changed halts
finish n results s =
    let node_errs = errors results in
    let is_failed = not (is_empty node_errs) in
    let halt = s.halt || (is_failed && halts n.failure_policy) in
    let rolls_back =
      is_failed && n.failure_policy == "rollback" && (halt && halts n.failure_policy) in
    record s {
      node_changed = update s.node_changed n.id (any_changed results);
      node_states = update s.node_states n.id (if is_failed then failed else applied);
      errs = s.errs ++ node_errs;
      halt = halt;
      cancelled = s.cancelled || (is_failed && halts n.failure_policy);
      executing = erase n.id s.executing;
      done = s.done ++ n.id ∷ [];
      rollbacks = if rolls_back then suc s.rollbacks else s.rollbacks;
    }

-- One round of the main loop, which has received `id` and leaves `done` on the channel.
unfoldable pub collect : Graph → String → List String → RunState → RunState
unfolding release
collect g id done s =
    let (in_degree, ready) = release (g.edges id) s.in_degree s.ready in
    record s { in_degree = in_degree; ready = ready; done = done; collected = id ∷ s.collected }

unfoldable pub find_node : List Node → String → Option Node
find_node [] id = none
find_node (n ∷ ns) id = if n.id == id then some n else find_node ns id

module _ (g : Graph) (targets : List String) where
  -- A step of the dispatcher, of a node's goroutine or of the main loop.
  pub data Step (s : RunState) : RunState → Type 0 where
    dispatch :
        (id : String) (ready : List String)
        → s.ready ≡ id ∷ ready
        → Step s (record s { ready = ready; started = id ∷ s.started })
    start :
        (n : Node)
        → find_node g.nodes n.id ≡ some n
        → mem n.id s.started ≡ true
        → Step s (begin targets n s)
    stop :
        (n : Node) (results : List TargetResult)
        → find_node g.nodes n.id ≡ some n
        → mem n.id s.executing ≡ true
        → Step s (finish n results s)
    receive : (id : String) (done : List String) → s.done ≡ id ∷ done → Step s (collect g id done s)

  -- The run after a number of steps; the time limit may pass at any moment.
  pub data Reach (s₀ : RunState) : ℕ → RunState → Type 0 where
    here : Reach s₀ 0 s₀
    next : {k : ℕ} {s s' : RunState} → Reach s₀ k s → Step s s' → Reach s₀ (suc k) s'
    timeout : {k : ℕ} {s : RunState} → Reach s₀ k s → Reach s₀ k (record s { cancelled = true })

-- What `Run` returns once the main loop has ended.
unfoldable pub verdict : RunState → Option ℕ
verdict s = if is_empty s.errs then none else some (length s.errs)
