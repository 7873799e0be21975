-- ===== src/Devlang/Steps/Exact.antt =====
-- A search in a graph that has an order reports no cycle.
use dotdevops.Prelude.{
  ℕ, zero, suc, ◌≤◌, ◌<◌, String, ◌≡◌, ◌↔◌, refl, sym, ◌∙◌, subst, true, false, ◌==◌, Option, some,
  List, [], ◌∷◌, ◌++◌, arith, mem, mem-append, length, eq_iff, Bool-cases, inl, inr, All, All-map,
  of_mem-All, Map, if◌then◌else◌,
}
use dotdevops.Devlang.Steps.{
  Search, look_at, look_at_all, enter, leave, dfs, search_all, detect_cycles,
}
use dotdevops.Devlang.Steps.Order.{IsOrder, IsClean, then_do-eq-some, detect_cycles-IsOrder}
use dotdevops.Devlang.Steps.Depth.{detect_cycles-some}

-- How many names stand at and behind the last place of a name.
abbrev rank : String → List String → ℕ
rank x [] = 0
rank x (y ∷ ys) = if mem x ys then rank x ys else if y == x then suc (length ys) else 0

rank-le : (x : String) (order : List String) → rank x order ≤ length order
rank-le x [] = omega arith
rank-le x (y ∷ ys) = ground (arith, rank-le x ys)

-- What a name of the order points to stands in the order, at a lower rank.
rank_falls :
    (graph : Map (List String)) (order : List String) (u : String)
    → IsOrder graph order
    → mem u order ≡ true
    → All (λ v. (mem v order ≡ true) × (rank v order < rank u order)) (graph u)
rank_falls graph [] u ordered m = cc
rank_falls graph (y ∷ ys) u ordered m = elim (Bool-cases (mem u ys)) [
  | inl later ↦
      All-map (graph u) (λ v h. (ground arith, ground (arith, h.0)))
        (rank_falls graph ys u ordered.1 later)
  | inr last ↦
      let same : y ≡ u = (eq_iff y u).0 (ground arith) in
      All-map (graph u) (λ v h. (ground arith, ground (arith, rank-le v ys, eq_iff y u)))
        (subst (λ z. All (λ v. mem v ys ≡ true) (graph z)) same ordered.0)
]

module _ (graph : Map (List String)) (order : List String) (ordered : IsOrder graph order) where
  abbrev Above : String → String → Type 0
  Above v p = rank v order < rank p order

  abbrev OnStack : List String → Search → Type 0
  OnStack path s = (x : String) → s.rec_stack x ≡ mem x path

  -- The search below a name stays clean, and leaves the stack as it was.
  Quiet : (String → Search → Option Search) → List String → Type 0
  Quiet go path =
      (v : String) (s s' : Search)
      → mem v order ≡ true
      → All (Above v) path
      → OnStack path s
      → IsClean s
      → go v s ≡ some s'
      → IsClean s' × OnStack path s'

  off_path : (v : String) (path : List String) → All (Above v) path → mem v path ≡ false
  off_path v path all = elim (Bool-cases (mem v path)) [
    | inl on ↦ absurd (omega (arith, of_mem-All (Above v) path all v on))
    | inr off ↦ off
  ]

  look_at-Quiet :
      (go : String → Search → Option Search) (path : List String)
      → Quiet go path
      → Quiet (look_at go path) path
  unfolding Quiet look_at
  look_at-Quiet go path quiet v s s' m above stack clean h = elim (Bool-cases (s.visited v)) [
    | inr new ↦ quiet v s s' m above stack clean (rw new at h)
    | inl old ↦
        let off : s.rec_stack v ≡ false = stack v ∙ off_path v path above in
        let same : s ≡ s' = cc (rw (old, off) at h) in
        (subst IsClean same clean, subst (OnStack path) same stack)
  ]

  look_at_all-Quiet :
      (go : String → Search → Option Search) (path : List String)
      → Quiet go path
      → (vs : List String) (s s' : Search) → All (λ v. (mem v order ≡ true) × All (Above v) path) vs
      → OnStack path s
      → IsClean s
      → look_at_all go path vs s ≡ some s'
      → IsClean s' × OnStack path s'
  unfolding look_at_all Quiet
  look_at_all-Quiet go path quiet [] s s' all stack clean h =
      let same : s ≡ s' = cc in (subst IsClean same clean, subst (OnStack path) same stack)
  look_at_all-Quiet go path quiet (v ∷ vs) s s' all stack clean h =
      let (t, first, rest) = then_do-eq-some (look_at go path v s) _ h in
      let (clean_t, stack_t) =
        look_at-Quiet go path quiet v s t all.0.0 all.0.1 stack clean first in
      look_at_all-Quiet go path quiet vs t s' all.1 stack_t clean_t rest

  All-last :
      (v u : String) (path : List String)
      → All (Above u) path
      → Above v u
      → All (Above v) (path ++ u ∷ [])
  All-last v u [] all below = (below, tt)
  All-last v u (p ∷ path) all below = (omega (arith, all.0), All-last v u path all.1 below)

  enter_stack :
      (u : String) (path : List String) (s : Search)
      → OnStack path s
      → OnStack (path ++ u ∷ []) (enter u s)
  unfolding enter
  enter_stack u path s stack x = ground (arith, stack x, mem-append x path (u ∷ []))

  leave_stack :
      (u : String) (path : List String) (s : Search)
      → mem u path ≡ false
      → OnStack (path ++ u ∷ []) s
      → OnStack path (leave u s)
  unfolding leave
  leave_stack u path s off stack x = elim (Bool-cases (u == x)) [
    | inl e ↦ rw e (sym (subst (λ y. mem y path ≡ false) ((eq_iff u x).0 e) off))
    | inr e ↦ rw e (ground (arith, stack x, mem-append x path (u ∷ [])))
  ]

  enter-IsClean : (u : String) (s : Search) → IsClean s → IsClean (enter u s)
  unfolding enter
  enter-IsClean u s h = h

  leave-IsClean : (u : String) (s : Search) → IsClean s → IsClean (leave u s)
  unfolding leave
  leave-IsClean u s h = h

  dfs-Quiet : (fuel : ℕ) (path : List String) → Quiet (λ v s. dfs graph fuel v path s) path
  unfolding Quiet dfs
  dfs-Quiet zero path v s s' m above stack clean h = cc
  dfs-Quiet (suc fuel) path v s s' m above stack clean h =
      let deeper = path ++ v ∷ [] in
      let go = λ (w : String) (r : Search). dfs graph fuel w deeper r in
      let (t, below, same) = then_do-eq-some (look_at_all go deeper (graph v) (enter v s)) _ h in
      let is : leave v t ≡ s' = cc in
      let (clean_t, stack_t) =
        look_at_all-Quiet go deeper (dfs-Quiet fuel deeper) (graph v) (enter v s) t
          (All-map (graph v) (λ w h. (h.0, All-last w v path above h.1))
            (rank_falls graph order v ordered m))
          (enter_stack v path s stack) (enter-IsClean v s clean) below in
      (
        subst IsClean is (leave-IsClean v t clean_t),
        subst (OnStack path) is (leave_stack v path t (off_path v path above) stack_t),
      )

  search_all-Quiet :
      (fuel : ℕ) (us : List String) (s s' : Search)
      → All (λ u. mem u order ≡ true) us
      → OnStack [] s
      → IsClean s
      → search_all graph fuel us s ≡ some s'
      → IsClean s'
  unfolding search_all Quiet
  search_all-Quiet fuel [] s s' all stack clean h =
      let same : s ≡ s' = cc in subst IsClean same clean
  search_all-Quiet fuel (u ∷ us) s s' all stack clean h =
      let (t, first, rest) =
        then_do-eq-some (if s.visited u then some s else dfs graph fuel u [] s) _ h in
      elim (Bool-cases (s.visited u)) [
        | inl old ↦
            let same : s ≡ t = cc (rw old at first) in
            search_all-Quiet fuel us t s' all.1 (subst (OnStack []) same stack)
              (subst IsClean same clean) rest
        | inr new ↦
            let (clean_t, stack_t) =
              dfs-Quiet fuel [] u s t all.0 tt stack clean (rw new at first) in
            search_all-Quiet fuel us t s' all.1 stack_t clean_t rest
      ]

-- The search always returns, on as much fuel as there are names in a list that has the names it
-- starts from and all that these point to. It reports no cycle exactly if the graph has an order
-- with those names in which all that a name points to stands behind it.
pub detect_cycles_exact :
    (graph : Map (List String)) (known : List String) (fuel : ℕ) (names : List String)
    → ((x : String) → mem x known ≡ true → All (λ v. mem v known ≡ true) (graph x))
    → All (λ u. mem u known ≡ true) names
    → length known ≤ fuel
    → (s : Search) × (detect_cycles graph fuel names ≡ some s)
      × (IsClean s
          ↔ ((order : List String) × IsOrder graph order × All (λ u. mem u order ≡ true) names))
unfolding detect_cycles
detect_cycles_exact graph known fuel names closed_under listed enough =
    let (s, is) = detect_cycles-some graph known closed_under fuel names listed enough in
    (
      s,
      is,
      (
        (λ clean. detect_cycles-IsOrder graph fuel names is clean),
        λ (order, ordered, all).
            search_all-Quiet graph order ordered fuel names _ s all (λ x. refl) refl is,
      ),
    )
