-- ===== src/Controller/Graph.antt =====
-- internal/controller/graph.go: the dependency graph, and Kahn's algorithm as its cycle check.
pub mod Loop
pub mod Build
pub mod Correct
pub mod Validated
use dotdevops.Prelude.{
  ℕ, zero, suc, String, Bool, Option, none, some, List, [], ◌∷◌, ◌++◌, mem, length, nat_beq, Map,
  update, Result, ok, err, ◌>>=◌, if◌then◌else◌,
}
use dotdevops.Prelude.Int.{ℤ, pos, succ, pred, is_zero}
use dotdevops.Plan.Schema.{Node, ids}

-- `nodes` are the entries of the map `Nodes`, under their ids.
pub record Graph : Type 0 where
  pub nodes : List Node
  pub edges : Map (List String)
  pub in_degree : Map ℤ

pub data GraphError : Type 0 where
  duplicate_node : String → GraphError
  unknown_node : String → String → GraphError
  cycle : GraphError

abbrev pub empty : Graph
empty = record { nodes = []; edges = λ _. []; in_degree = λ _. pos 0 }

-- the first loop of BuildGraph
unfoldable pub add_nodes : List Node → Graph → Result GraphError Graph
add_nodes [] g = ok g
add_nodes (n ∷ ns) g =
    let rest =
      add_nodes ns
        (record g { nodes = g.nodes ++ n ∷ []; in_degree = update g.in_degree n.id (pos 0) }) in
    if mem n.id (ids g.nodes) then err (duplicate_node n.id) else rest

-- the inner loop over `n.DependsOn`
unfoldable pub add_deps : String → List String → Graph → Result GraphError Graph
add_deps id [] g = ok g
add_deps id (dep ∷ deps) g =
    let rest = add_deps id deps (record g {
      edges = update g.edges dep (g.edges dep ++ id ∷ []);
      in_degree = update g.in_degree id (succ (g.in_degree id));
    }) in
    if mem dep (ids g.nodes) then rest else err (unknown_node id dep)

-- the second loop of BuildGraph
unfoldable pub add_edges : List Node → Graph → Result GraphError Graph
unfolding add_deps
add_edges [] g = ok g
add_edges (n ∷ ns) g = add_deps n.id n.depends_on g >>= λ g'. add_edges ns g'

-- the loop over `g.Edges[u]`: the new in-degrees and the new queue
unfoldable pub release : List String → Map ℤ → List String → Map ℤ × List String
release [] deg queue = (deg, queue)
release (v ∷ vs) deg queue =
    let deg' = update deg v (pred (deg v)) in
    release vs deg' (if is_zero (deg' v) then queue ++ v ∷ [] else queue)

-- `for len(queue) > 0`, on fuel; `none` means that the fuel ran out.
unfoldable pub kahn : ℕ → Map (List String) → Map ℤ → List String → ℕ → Option ℕ
unfolding release
kahn zero edges deg queue count = none
kahn (suc fuel) edges deg [] count = some count
kahn (suc fuel) edges deg (u ∷ queue) count =
    let (deg', queue') = release (edges u) deg queue in kahn fuel edges deg' queue' (suc count)

-- the loop that fills the queue, over the keys of the in-degrees in the order of the `range`
unfoldable pub roots : List String → Map ℤ → List String
roots [] deg = []
roots (id ∷ order) deg = if is_zero (deg id) then id ∷ roots order deg else roots order deg

-- `count` against `len(g.Nodes)`
unfoldable pub verdict : Graph → Option ℕ → Option (Result GraphError Graph)
verdict g none = none
verdict g (some n) = if nat_beq n (length g.nodes) then some (ok g) else some (err cycle)

unfoldable pub detect_cycles : List String → Graph → Option (Result GraphError Graph)
unfolding kahn roots verdict
detect_cycles order g =
    verdict g (kahn (suc (length g.nodes)) g.edges g.in_degree (roots order g.in_degree) 0)

unfoldable pub checked : List String → Result GraphError Graph → Option (Result GraphError Graph)
unfolding detect_cycles
checked order (ok g) = detect_cycles order g
checked order (err e) = some (err e)

-- `order` is the order in which the `range` over the in-degrees visits the ids.
unfoldable pub build_graph : List String → List Node → Option (Result GraphError Graph)
unfolding add_nodes add_edges checked
build_graph order nodes = checked order (add_nodes nodes empty >>= λ g. add_edges nodes g)
