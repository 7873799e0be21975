-- ===== src/Controller/Graph/Validated.antt =====
-- BuildGraph on the plans that Validate accepts.
use dotdevops.Prelude.{
  String, ◌≡◌, ◌≢◌, refl, subst, false, true, some, List, [], ◌∷◌, arith, mem, All, count-eq-zero,
  Bool-cases, err, of_mem-All, inl, inr,
}
use dotdevops.Plan.Schema.{Node, Plan, ids}
use dotdevops.Plan.Validate.{validate, target_ids_of}
use dotdevops.Plan.Validate.Valid.{IsSound, validate-IsValid_iff}
use dotdevops.Controller.Graph.{unknown_node, build_graph}
use dotdevops.Controller.Graph.Build.{arcs}
use dotdevops.Controller.Graph.Correct.{Visits, Outcome, build_graph_outcome}

-- A list of known names holds no unknown one.
absent_of_known :
    (known : List String) (xs : List String) (d : String)
    → All (λ x. mem x known ≡ true) xs
    → mem d known ≡ false
    → mem d xs ≡ false
absent_of_known known xs d all out = elim (Bool-cases (mem d xs)) [
  | inl e ↦ absurd (ground (arith, of_mem-All (λ x. mem x known ≡ true) xs all d e))
  | inr e ↦ e
]

arcs-IsSound :
    (target_ids known : List String) (ns : List Node) (d v : String)
    → All (IsSound target_ids known) ns
    → mem d known ≡ false
    → arcs ns d v ≡ 0
arcs-IsSound target_ids known [] d v all out = refl
arcs-IsSound target_ids known (n ∷ ns) d v all out = ground (
  arith,
  arcs-IsSound target_ids known ns d v all.1 out,
  count-eq-zero d n.depends_on (absent_of_known known n.depends_on d all.0.depends_on out),
)

-- For a plan that Validate accepts, BuildGraph never meets a dependency that is no node.
pub build_graph-validate :
    (order : List String) (p : Plan)
    → Visits order p.nodes
    → validate p ≡ []
    → (v d : String) → build_graph order p.nodes ≢ some (err (unknown_node v d))
build_graph-validate order p visits accepted v d e =
    let valid = (validate-IsValid_iff p).0 accepted in
    let (arc, out) =
      subst (Outcome order p.nodes visits) e (build_graph_outcome order p.nodes visits) in
    ground (arith, arcs-IsSound (target_ids_of p) (ids p.nodes) p.nodes d v valid.nodes out)
