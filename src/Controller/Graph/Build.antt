-- ===== src/Controller/Graph/Build.antt =====
-- What the two loops of `BuildGraph` compute, or why they refuse the nodes.
use mathlib.Core.List.{append_assoc, append-nil}
use dotdevops.Prelude.{
  ℕ, suc, ◌+◌, ◌≤◌, ◌<◌, String, ◌≡◌, refl, sym, ◌∙◌, true, false, List, [], ◌∷◌, ◌++◌, arith, ◌==◌,
  eq_iff, eq_refl, mem, count, length, count-append, update, Result, ok, err, ◌>>=◌,
  count_pos_of_mem, count-eq-zero, if◌then◌else◌, Bool-cases, inl, inr,
}
use dotdevops.Prelude.Int.{pos, succ}
use dotdevops.Plan.Schema.{Node, ids}
use dotdevops.Controller.Graph.{
  Graph, GraphError, duplicate_node, unknown_node, add_nodes, add_deps, add_edges,
}

count-ids-append :
    (v : String) (xs ys : List Node)
    → count v (ids (xs ++ ys)) ≡ count v (ids xs) + count v (ids ys)
count-ids-append v [] ys = omega arith
count-ids-append v (x ∷ xs) ys = ground (arith, count-ids-append v xs ys)

-- The nodes are added in their order with degree 0, or one of them stands there twice.
abbrev pub AddNodes : Graph → List Node → Result GraphError Graph → Type 0
AddNodes g ns (ok g') =
    (g'.nodes ≡ g.nodes ++ ns)
    × (g'.edges ≡ g.edges)
    × ((v : String) → g.in_degree v ≡ pos 0 → g'.in_degree v ≡ pos 0)
    × (((v : String) → count v (ids g.nodes) ≤ 1)
        → (v : String) → count v (ids (g.nodes ++ ns)) ≤ 1)
AddNodes g ns (err e) = (v : String) × (e ≡ duplicate_node v) × (1 < count v (ids (g.nodes ++ ns)))

pub add_nodes_lem : (ns : List Node) (g : Graph) → AddNodes g ns (add_nodes ns g)
unfolding add_nodes
add_nodes_lem [] g = (
  sym (append-nil g.nodes),
  refl,
  λ v h. h,
  λ single v. ground (arith, single v, count-ids-append v g.nodes []),
)
add_nodes_lem (n ∷ ns) g = elim (Bool-cases (mem n.id (ids g.nodes))) [
  | inl old ↦ rw old (
    n.id,
    refl,
    ground (
      arith,
      count-ids-append n.id g.nodes (n ∷ ns),
      count_pos_of_mem n.id (ids g.nodes) old,
      eq_refl n.id,
    ),
  )
  | inr new ↦ rw new (extend new (add_nodes ns g₁) (add_nodes_lem ns g₁))
]
  where
    g₁ : Graph
    g₁ = record g { nodes = g.nodes ++ n ∷ []; in_degree = update g.in_degree n.id (pos 0) }

    extend :
        mem n.id (ids g.nodes) ≡ false
        → (r : Result GraphError Graph) → AddNodes g₁ ns r
        → AddNodes g (n ∷ ns) r
    extend new (ok g') (nodes, edges, zeros, single) = (
      nodes ∙ append_assoc g.nodes (n ∷ []) ns,
      edges,
      λ v h. zeros v (ground arith),
      λ start v. rw append_assoc at (
          single
            (λ w. ground (
              arith,
              start w,
              count-eq-zero n.id (ids g.nodes) new,
              eq_iff n.id w,
              count-ids-append w g.nodes (n ∷ []),
            ))
            v),
    )
    extend new (err e) (v, is, twice) = (v, is, rw append_assoc at twice)

-- How often the nodes with the id `v` name `u`, and how many names they have on their lists.
abbrev pub arcs : List Node → String → String → ℕ
arcs [] u v = 0
arcs (n ∷ ns) u v = (if n.id == v then count u n.depends_on else 0) + arcs ns u v

abbrev pub fan_in : List Node → String → ℕ
fan_in [] v = 0
fan_in (n ∷ ns) v = (if n.id == v then length n.depends_on else 0) + fan_in ns v

abbrev AddDeps : Graph → String → List String → Result GraphError Graph → Type 0
AddDeps g id deps (ok g') =
    (g'.nodes ≡ g.nodes)
    × ((u v : String)
        → count v (g'.edges u) ≡ count v (g.edges u) + (if id == v then count u deps else 0))
    × ((v : String) (k : ℕ)
        → g.in_degree v ≡ pos k
        → g'.in_degree v ≡ pos (k + (if id == v then length deps else 0)))
    × ((d : String) → mem d deps ≡ true → mem d (ids g.nodes) ≡ true)
AddDeps g id deps (err e) =
    (d : String) × (e ≡ unknown_node id d) × (0 < count d deps) × (mem d (ids g.nodes) ≡ false)

add_deps_lem :
    (id : String) (deps : List String) (g : Graph) → AddDeps g id deps (add_deps id deps g)
unfolding add_deps
add_deps_lem id [] g = (refl, λ u v. ground arith, λ v k h. ground arith, λ d m. ground arith)
add_deps_lem id (dep ∷ deps) g = elim (Bool-cases (mem dep (ids g.nodes))) [
  | inl old ↦ rw old (extend old (add_deps id deps g₁) (add_deps_lem id deps g₁))
  | inr new ↦ rw new (dep, refl, ground (arith, eq_refl dep), new)
]
  where
    g₁ : Graph
    g₁ = record g {
      edges = update g.edges dep (g.edges dep ++ id ∷ []);
      in_degree = update g.in_degree id (succ (g.in_degree id));
    }

    extend :
        mem dep (ids g.nodes) ≡ true
        → (r : Result GraphError Graph) → AddDeps g₁ id deps r
        → AddDeps g id (dep ∷ deps) r
    extend old (ok g') (nodes, edges, degrees, known) = (
      nodes,
      λ u v.
          ground
            (arith, edges u v, count-append v (g.edges u) (id ∷ []), eq_iff dep u, eq_iff id v),
      λ v k h. ground (arith, degrees v k, degrees v (suc k), eq_iff id v),
      λ d m. ground (arith, known d, old, eq_iff dep d),
    )
    extend old (err e) (d, is, named, unknown) = (d, is, ground arith, unknown)

-- All arcs are counted at both ends, or a node names an id that no node has.
abbrev pub AddEdges : Graph → List Node → Result GraphError Graph → Type 0
AddEdges g ns (ok g') =
    (g'.nodes ≡ g.nodes)
    × ((u v : String) → count v (g'.edges u) ≡ count v (g.edges u) + arcs ns u v)
    × ((v : String) (k : ℕ) → g.in_degree v ≡ pos k → g'.in_degree v ≡ pos (k + fan_in ns v))
    × ((u v : String) → 0 < arcs ns u v → mem u (ids g.nodes) ≡ true)
AddEdges g ns (err e) =
    (d v : String) × (e ≡ unknown_node v d) × (0 < arcs ns d v) × (mem d (ids g.nodes) ≡ false)

pub add_edges_lem : (ns : List Node) (g : Graph) → AddEdges g ns (add_edges ns g)
unfolding add_edges
add_edges_lem [] g =
    (refl, λ u v. omega arith, λ v k h. ground arith, λ u v h. absurd (omega arith))
add_edges_lem (n ∷ ns) g =
    first (add_deps n.id n.depends_on g) (add_deps_lem n.id n.depends_on g)
      (λ g'. add_edges_lem ns g')
  where
    then_rest :
        (g' : Graph) (r : Result GraphError Graph)
        → AddDeps g n.id n.depends_on (ok g')
        → AddEdges g' ns r
        → AddEdges g (n ∷ ns) r
    then_rest g' (ok g'') (nodes, edges, degrees, known) (nodes', edges', degrees', known') = (
      nodes' ∙ nodes,
      λ u v. ground (arith, edges u v, edges' u v),
      λ v k h.
          ground
            (arith, degrees v k h, degrees' v (k + (if n.id == v then length n.depends_on else 0))),
      λ u v h. elim (Bool-cases (mem u n.depends_on)) [
        | inl m ↦ known u m
        | inr m ↦ rw nodes at (known' u v (ground (arith, count-eq-zero u n.depends_on m)))
      ],
    )
    then_rest g' (err e) (nodes, _, _, _) (d, v, is, named, unknown) =
        (d, v, is, ground arith, rw nodes at unknown)

    first :
        (r : Result GraphError Graph)
        → AddDeps g n.id n.depends_on r
        → ((g' : Graph) → AddEdges g' ns (add_edges ns g'))
        → AddEdges g (n ∷ ns) (r >>= λ g'. add_edges ns g')
    first (ok g') h rest = then_rest g' (add_edges ns g') h (rest g')
    first (err e) (d, is, named, unknown) rest =
        (d, n.id, is, ground (arith, eq_refl n.id), unknown)
