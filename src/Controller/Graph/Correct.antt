-- ===== src/Controller/Graph/Correct.antt =====
-- What `BuildGraph` promises of the graphs that it accepts and of its errors.
use dotdevops.Prelude.{
  ℕ, suc, ◌≤◌, ◌<◌, String, ◌≡◌, refl, ap, ◌∙◌, true, false, Option, none, some, List, [], ◌∷◌,
  arith, ◌==◌, eq_iff, mem, count, length, Map, nat_beq, Result, ok, err, ◌>>=◌, mem_of_count_pos,
  count_pos_of_mem, count-eq-zero, if◌then◌else◌, Bool-cases, inl, inr,
}
use dotdevops.Prelude.Int.{ℤ, pos, is_zero}
use dotdevops.Plan.Schema.{Node, ids}
use dotdevops.Controller.Graph.{
  Graph, GraphError, duplicate_node, unknown_node, cycle, empty, add_nodes, add_edges, roots,
  verdict, detect_cycles, checked, build_graph,
}
use dotdevops.Controller.Graph.Build.{
  arcs, fan_in, AddEdges, AddNodes, add_nodes_lem, add_edges_lem,
}
use dotdevops.Controller.Graph.Loop.{
  IsOrdered, Inv, Mirrors, pending-nil, kahn-Inv, all_taken, all_taken_of_ranked,
}

-- `DependsOn` of the node with an id
abbrev pub deps_of : List Node → Map (List String)
deps_of [] v = []
deps_of (n ∷ ns) v = if n.id == v then n.depends_on else deps_of ns v

arcs-absent :
    (ns : List Node) (u v : String)
    → count v (ids ns) ≡ 0
    → (arcs ns u v ≡ 0) × (fan_in ns v ≡ 0) × (deps_of ns v ≡ [])
arcs-absent [] u v h = (refl, refl, refl)
arcs-absent (n ∷ ns) u v h = ground (arith, arcs-absent ns u v)

arcs-eq-count :
    (ns : List Node) (u v : String)
    → count v (ids ns) ≤ 1
    → (arcs ns u v ≡ count u (deps_of ns v)) × (fan_in ns v ≡ length (deps_of ns v))
arcs-eq-count [] u v h = (refl, refl)
arcs-eq-count (n ∷ ns) u v h = ground (arith, arcs-eq-count ns u v, arcs-absent ns u v)

count-roots :
    (v : String) (order : List String) (deg : Map ℤ)
    → count v (roots order deg) ≡ (if is_zero (deg v) then count v order else 0)
unfolding roots
count-roots v [] deg = ground arith
count-roots v (id ∷ order) deg = ground (arith, count-roots v order deg, eq_iff id v)

-- Each id is visited as often as it stands among the nodes.
abbrev pub Visits : List String → List Node → Type 0
Visits order nodes = (v : String) → count v order ≡ count v (ids nodes)

pub length-ids : (ns : List Node) → length (ids ns) ≡ length ns
length-ids [] = refl
length-ids (n ∷ ns) = ap suc (length-ids ns)

-- A list of all the ids, the newest first, in which each stands before all that it depends on.
pub record IsTopological (nodes : List Node) (final : List String) : Type 0 where
  pub complete : (v : String) → count v final ≡ count v (ids nodes)
  pub ordered : IsOrdered (deps_of nodes) final

-- `rank` puts each dependency of a node among the nodes and below it.
abbrev pub IsRanked : List Node → (String → ℕ) → Type 0
IsRanked nodes rank =
    (v d : String)
    → mem v (ids nodes) ≡ true
    → mem d (deps_of nodes v) ≡ true
    → (mem d (ids nodes) ≡ true) × (rank d < rank v)

-- The graph has the nodes, an edge for each entry of a `DependsOn` list, and their number.
pub record Represents (nodes : List Node) (g : Graph) : Type 0 where
  pub same_nodes : g.nodes ≡ nodes
  pub edges_eq : (u v : String) → count v (g.edges u) ≡ count u (deps_of nodes v)
  pub degree_eq : (v : String) → g.in_degree v ≡ pos (length (deps_of nodes v))
  pub single : (v : String) → count v (ids nodes) ≤ 1
  pub known : (v d : String) → mem d (deps_of nodes v) ≡ true → mem d (ids nodes) ≡ true

pub mirrors :
    (nodes : List Node) (g : Graph)
    → Represents nodes g
    → Mirrors (ids nodes) (deps_of nodes) g.edges
mirrors nodes g rep = record {
  inside = λ u v m. rep.edges_eq u v;
  outside =
      λ u v h. ground (arith, rep.edges_eq u v, arcs-absent nodes u v, count-eq-zero v (ids nodes));
}

module _ (order : List String) (nodes : List Node) (visits : Visits order nodes) where
  module _ (g : Graph) (rep : Represents nodes g) where
    pub start_Inv :
        Inv (ids nodes) (deps_of nodes) g.edges [] (roots order g.in_degree) [] g.in_degree
    start_Inv = record {
      counted = λ v m. ground (arith, rep.degree_eq v, pending-nil (deps_of nodes v));
      known = λ v h. absurd (omega arith);
      found = λ v m z.
          ground
            (arith, count-roots v order g.in_degree, visits v, count_pos_of_mem v (ids nodes) m);
      settled = λ v h.
          ground (arith, count-roots v order g.in_degree, visits v, mem_of_count_pos v (ids nodes));
      once = λ v. ground (arith, count-roots v order g.in_degree, visits v, rep.single v);
      ordered = tt;
    }

    -- The loop ends, and it takes all nodes or leaves some.
    detect_lem :
        (final : List String) × (detect_cycles order g
          ≡ (if nat_beq (length final) (length g.nodes) then some (ok g) else some (err cycle)))
        × (deg : Map ℤ) × Inv (ids nodes) (deps_of nodes) g.edges final [] [] deg
    unfolding detect_cycles
    detect_lem =
        let (final, runs, deg, inv) =
          kahn-Inv (ids nodes) (deps_of nodes) g.edges (mirrors nodes g rep) (suc (length g.nodes))
            [] (roots order g.in_degree) g.in_degree start_Inv
            (omega (arith, length-ids nodes, ap (λ (l : List Node). length l) rep.same_nodes)) in
        (final, ap (verdict g) runs, deg, inv)

  -- What each outcome of BuildGraph says of the nodes.
  abbrev pub Outcome : Option (Result GraphError Graph) → Type 0
  Outcome none = ⊥
  Outcome (some (ok g)) = Represents nodes g × (final : List String) × IsTopological nodes final
  Outcome (some (err (duplicate_node v))) = 1 < count v (ids nodes)
  Outcome (some (err (unknown_node v d))) = (0 < arcs nodes d v) × (mem d (ids nodes) ≡ false)
  Outcome (some (err cycle)) = ¬ ((rank : String → ℕ) × IsRanked nodes rank)

  detected : (g : Graph) → Represents nodes g → Outcome (detect_cycles order g)
  detected g rep =
      let (final, runs, deg, inv) = detect_lem g rep in
      let same : length g.nodes ≡ length (ids nodes) =
        omega (arith, length-ids nodes, ap (λ (l : List Node). length l) rep.same_nodes) in
      rw runs (elim (Bool-cases (nat_beq (length final) (length g.nodes))) [
        | inl e ↦ rw e (
          rep,
          final,
          record {
            complete = all_taken (ids nodes) (deps_of nodes) g.edges inv (ground arith);
            ordered = inv.ordered;
          },
        )
        | inr e ↦ rw e (λ (rank, ranked).
            let full : length final ≡ length (ids nodes) =
              all_taken_of_ranked (ids nodes) (deps_of nodes) g.edges inv rank ranked rep.single in
            ground arith)
      ])

  represents :
      (g : Graph)
      → g.nodes ≡ nodes
      → ((u v : String) → count v (g.edges u) ≡ 0)
      → ((v : String) → g.in_degree v ≡ pos 0)
      → ((v : String) → count v (ids nodes) ≤ 1)
      → (r : Result GraphError Graph) → AddEdges g nodes r
      → Outcome (checked order r)
  unfolding checked
  represents g same none_yet zeros single (ok g') (nodes', edges, degrees, known) =
      detected g' (record {
        same_nodes = nodes' ∙ same;
        edges_eq =
            λ u v. omega (arith, edges u v, none_yet u v, (arcs-eq-count nodes u v (single v)).0);
        degree_eq = λ v. ground (arith, degrees v 0 (zeros v), arcs-eq-count nodes v v (single v));
        single = single;
        known = λ v d m. rw same at (
            known d v (
              ground (
                arith,
                arcs-eq-count nodes d v (single v),
                count_pos_of_mem d (deps_of nodes v) m,
              )));
      })
  represents g same none_yet zeros single (err e) (d, v, is, named, unknown) =
      rw is (named, rw same at unknown)

  -- BuildGraph always returns. The graph that it returns has every node and every edge, and a
  -- topological order; a duplicate or unknown id is named; and where it reports a cycle, no rank
  -- puts every node above its dependencies.
  pub build_graph_outcome : Outcome (build_graph order nodes)
  unfolding build_graph
  build_graph_outcome = go (add_nodes nodes empty) (add_nodes_lem nodes empty)
    where
      go :
          (r : Result GraphError Graph)
          → AddNodes empty nodes r
          → Outcome (checked order (r >>= λ g. add_edges nodes g))
      go (ok g) (same, edges, zeros, single) =
          represents g same (λ u v. ap (λ (m : Map (List String)). count v (m u)) edges)
            (λ v. zeros v refl) (single (λ v. omega arith)) (add_edges nodes g)
            (add_edges_lem nodes g)
      go (err e) (v, is, twice) = rw is twice
