-- ===== src/Devlang/Steps/Order.antt =====
-- A search that finds no cycle leaves an order of the graph.
use dotdevops.Prelude.{
  ℕ, zero, suc, String, ◌≡◌, refl, sym, ap, ◌∙◌, subst, true, false, ◌||◌, ◌==◌, Option, none, some,
  List, [], ◌∷◌, ◌++◌, arith, mem, mem-append, eq_iff, eq_refl, Bool-cases, inl, inr, All, Map,
  if◌then◌else◌,
}
use dotdevops.Devlang.Steps.{
  Search, from, look_at, look_at_all, closed, enter, leave, dfs, search_all, detect_cycles,
  ◌then_do◌,
}

-- The last first: all that a name points to stands behind it.
abbrev pub IsOrder : Map (List String) → List String → Type 0
IsOrder graph [] = Unit
IsOrder graph (x ∷ xs) = All (λ v. mem v xs ≡ true) (graph x) × IsOrder graph xs

-- The visited names are those of the order and those of the path, which are on the stack.
record Inv (graph : Map (List String)) (order path : List String) (s : Search) : Type 0 where
  visited : (x : String) → s.visited x ≡ (mem x order || mem x path)
  rec_stack : (x : String) → s.rec_stack x ≡ mem x path
  is_order : IsOrder graph order

-- What a part of the search that reports no cycle has done.
record Done (graph : Map (List String)) (order path : List String) (s' : Search) : Type 0 where
  longer : List String
  keeps : (x : String) → mem x order ≡ true → mem x longer ≡ true
  inv : Inv graph longer path s'

pub then_do-eq-some :
    (m : Option Search) (f : Search → Option Search) {r : Search}
    → (m then_do f) ≡ some r
    → (s : Search) × (m ≡ some s) × (f s ≡ some r)
then_do-eq-some none f h = cc
then_do-eq-some (some s) f h = (s, refl, h)

append-nil : (xs ys : List (List String)) → xs ++ ys ≡ [] → (xs ≡ []) × (ys ≡ [])
append-nil [] ys h = (refl, h)
append-nil (x ∷ xs) ys h = cc

from-on_path :
    (v : String) (path : List String)
    → mem v path ≡ true
    → (x : String) × (rest : List String) × (from v path ≡ x ∷ rest)
unfolding from
from-on_path v [] h = cc
from-on_path v (y ∷ path) h = elim (Bool-cases (y == v)) [
  | inl e ↦ (y, path, rw e refl)
  | inr e ↦ rw e (from-on_path v path (ground arith))
]

-- No cycle has been reported.
abbrev pub IsClean : Search → Type 0
IsClean s = s.cycles ≡ []

-- A part of the search takes no report back.
Grows : (String → Search → Option Search) → Type 0
Grows go = (v : String) (s s' : Search) → go v s ≡ some s' → IsClean s' → IsClean s

report-IsClean :
    (s s' : Search) (more : List (List String))
    → some (record s { cycles = s.cycles ++ more }) ≡ some s'
    → IsClean s'
    → IsClean s × (more ≡ [])
report-IsClean s s' more h clean =
    let same : record s { cycles = s.cycles ++ more } ≡ s' = cc in
    append-nil s.cycles more (ap (λ (t : Search). t.cycles) same ∙ clean)

module _ (go : String → Search → Option Search) (path : List String) (grows : Grows go) where
  look_at-Grows : Grows (look_at go path)
  unfolding Grows look_at
  look_at-Grows v s s' h clean = elim (Bool-cases (s.visited v)) [
    | inr new ↦ grows v s s' (rw new at h) clean
    | inl old ↦ elim (Bool-cases (s.rec_stack v)) [
      | inl on ↦ (report-IsClean s s' (closed v (from v path)) (rw (old, on) at h) clean).0
      | inr off ↦ let same : s ≡ s' = cc (rw (old, off) at h) in subst IsClean (sym same) clean
    ]
  ]

  look_at_all-IsClean :
      (vs : List String) (s s' : Search)
      → look_at_all go path vs s ≡ some s'
      → IsClean s'
      → IsClean s
  unfolding look_at_all Grows
  look_at_all-IsClean [] s s' h clean = let same : s ≡ s' = cc in subst IsClean (sym same) clean
  look_at_all-IsClean (v ∷ vs) s s' h clean =
      let (t, first, rest) = then_do-eq-some (look_at go path v s) _ h in
      look_at-Grows v s t first (look_at_all-IsClean vs t s' rest clean)

module _ (graph : Map (List String)) where
  leave-IsClean : (u : String) (s : Search) → IsClean (leave u s) → IsClean s
  unfolding leave
  leave-IsClean u s h = h

  enter-IsClean : (u : String) (s : Search) → IsClean (enter u s) → IsClean s
  unfolding enter
  enter-IsClean u s h = h

  dfs-Grows : (fuel : ℕ) (path : List String) → Grows (λ v s. dfs graph fuel v path s)
  unfolding Grows dfs
  dfs-Grows zero path v s s' h clean = cc
  dfs-Grows (suc fuel) path v s s' h clean =
      let (t, below, same) =
        then_do-eq-some (look_at_all _ (path ++ v ∷ []) (graph v) (enter v s)) _ h in
      let is : leave v t ≡ s' = cc in
      enter-IsClean v s (
        look_at_all-IsClean (λ w r. dfs graph fuel w (path ++ v ∷ []) r) (path ++ v ∷ [])
          (dfs-Grows fuel (path ++ v ∷ [])) (graph v) (enter v s) t below
          (leave-IsClean v t (ap (λ (r : Search). r.cycles) is ∙ clean)))

  -- What the search below a name does, for any order so far.
  Searches : (String → Search → Option Search) → List String → Type 0
  Searches go path =
      (v : String) (s s' : Search) (order : List String)
      → Inv graph order path s
      → s.visited v ≡ false
      → go v s ≡ some s'
      → IsClean s'
      → (d : Done graph order path s') × (mem v d.longer ≡ true)

  module _ (go : String → Search → Option Search) (path : List String) (grows : Grows go)
      (searches : Searches go path) where
    look_at-Done :
        (v : String) (s s' : Search) (order : List String)
        → Inv graph order path s
        → look_at go path v s ≡ some s'
        → IsClean s'
        → (d : Done graph order path s') × (mem v d.longer ≡ true)
    unfolding look_at Searches
    look_at-Done v s s' order inv h clean = elim (Bool-cases (s.visited v)) [
      | inr new ↦ searches v s s' order inv new (rw new at h) clean
      | inl old ↦ elim (Bool-cases (s.rec_stack v)) [
        | inl on ↦
            let (x, rest, e) = from-on_path v path (sym (inv.rec_stack v) ∙ on) in
            let none_closed =
              (report-IsClean s s' (closed v (from v path)) (rw (old, on) at h) clean).1 in
            absurd (cc (subst (λ l. closed v l ≡ []) e none_closed))
        | inr off ↦
            let same : s ≡ s' = cc (rw (old, off) at h) in
            (
              record {
                longer = order;
                keeps = λ x m. m;
                inv = subst (Inv graph order path) same inv;
              },
              ground (arith, inv.visited v, inv.rec_stack v),
            )
      ]
    ]

    look_at_all-Done :
        (vs : List String) (s s' : Search) (order : List String)
        → Inv graph order path s
        → look_at_all go path vs s ≡ some s'
        → IsClean s'
        → (d : Done graph order path s') × All (λ v. mem v d.longer ≡ true) vs
    unfolding look_at_all
    look_at_all-Done [] s s' order inv h clean =
        let same : s ≡ s' = cc in
        (
          record { longer = order; keeps = λ x m. m; inv = subst (Inv graph order path) same inv },
          tt,
        )
    look_at_all-Done (v ∷ vs) s s' order inv h clean =
        let (t, first, rest) = then_do-eq-some (look_at go path v s) _ h in
        let clean_t = look_at_all-IsClean go path grows vs t s' rest clean in
        let (d, here) = look_at-Done v s t order inv first clean_t in
        let (d', all) = look_at_all-Done vs t s' d.longer d.inv rest clean in
        (
          record { longer = d'.longer; keeps = λ x m. d'.keeps x (d.keeps x m); inv = d'.inv },
          (d'.keeps v here, all),
        )

  enter-Inv :
      (u : String) (s : Search) (order path : List String)
      → Inv graph order path s
      → Inv graph order (path ++ u ∷ []) (enter u s)
  unfolding enter
  enter-Inv u s order path inv = record {
    visited = λ x. ground (arith, inv.visited x, mem-append x path (u ∷ []));
    rec_stack = λ x. ground (arith, inv.rec_stack x, mem-append x path (u ∷ []));
    is_order = inv.is_order;
  }

  leave-Inv :
      (u : String) (s : Search) (order path : List String)
      → mem u path ≡ false
      → All (λ v. mem v order ≡ true) (graph u)
      → Inv graph order (path ++ u ∷ []) s
      → Inv graph (u ∷ order) path (leave u s)
  unfolding leave
  leave-Inv u s order path out all inv = record {
    visited = λ x. ground (arith, inv.visited x, mem-append x path (u ∷ []));
    rec_stack = λ x. elim (Bool-cases (u == x)) [
      | inl e ↦ rw e (sym (subst (λ y. mem y path ≡ false) ((eq_iff u x).0 e) out))
      | inr e ↦ rw e (ground (arith, inv.rec_stack x, mem-append x path (u ∷ [])))
    ];
    is_order = (all, inv.is_order);
  }

  dfs-Searches : (fuel : ℕ) (path : List String) → Searches (λ v s. dfs graph fuel v path s) path
  unfolding Searches dfs
  dfs-Searches zero path v s s' order inv new h clean = cc
  dfs-Searches (suc fuel) path v s s' order inv new h clean =
      let deeper = path ++ v ∷ [] in
      let go = λ (w : String) (r : Search). dfs graph fuel w deeper r in
      let (t, below, same) = then_do-eq-some (look_at_all go deeper (graph v) (enter v s)) _ h in
      let is : leave v t ≡ s' = cc in
      let clean_t : IsClean t = leave-IsClean v t (ap (λ (r : Search). r.cycles) is ∙ clean) in
      let (d, all) =
        look_at_all-Done go deeper (dfs-Grows fuel deeper) (dfs-Searches fuel deeper) (graph v)
          (enter v s) t order (enter-Inv v s order path inv) below clean_t in
      let out : mem v path ≡ false = ground (arith, inv.visited v) in
      (
        record {
          longer = v ∷ d.longer;
          keeps = λ x m. ground (arith, d.keeps x m);
          inv =
              subst (Inv graph (v ∷ d.longer) path) is (leave-Inv v t d.longer path out all d.inv);
        },
        ground (arith, eq_refl v),
      )

  search_all-IsClean :
      (fuel : ℕ) (us : List String) (s s' : Search)
      → search_all graph fuel us s ≡ some s'
      → IsClean s'
      → IsClean s
  unfolding search_all Grows
  search_all-IsClean fuel [] s s' h clean = let same : s ≡ s' = cc in subst IsClean (sym same) clean
  search_all-IsClean fuel (u ∷ us) s s' h clean =
      let (t, first, rest) =
        then_do-eq-some (if s.visited u then some s else dfs graph fuel u [] s) _ h in
      let clean_t = search_all-IsClean fuel us t s' rest clean in
      elim (Bool-cases (s.visited u)) [
        | inl old ↦ let same : s ≡ t = cc (rw old at first) in subst IsClean (sym same) clean_t
        | inr new ↦ dfs-Grows fuel [] u s t (rw new at first) clean_t
      ]

  search_all-Done :
      (fuel : ℕ) (us : List String) (s s' : Search) (order : List String)
      → Inv graph order [] s
      → search_all graph fuel us s ≡ some s'
      → IsClean s'
      → (d : Done graph order [] s') × All (λ u. mem u d.longer ≡ true) us
  unfolding search_all Searches
  search_all-Done fuel [] s s' order inv h clean =
      let same : s ≡ s' = cc in
      (record { longer = order; keeps = λ x m. m; inv = subst (Inv graph order []) same inv }, tt)
  search_all-Done fuel (u ∷ us) s s' order inv h clean =
      let (t, first, rest) =
        then_do-eq-some (if s.visited u then some s else dfs graph fuel u [] s) _ h in
      let clean_t = search_all-IsClean fuel us t s' rest clean in
      let (d, here) : (d : Done graph order [] t) × (mem u d.longer ≡ true) =
        elim (Bool-cases (s.visited u)) [
          | inl old ↦
              let same : s ≡ t = cc (rw old at first) in
              (
                record {
                  longer = order;
                  keeps = λ x m. m;
                  inv = subst (Inv graph order []) same inv;
                },
                ground (arith, inv.visited u),
              )
          | inr new ↦ dfs-Searches fuel [] u s t order inv new (rw new at first) clean_t
        ] in
      let (d', all) = search_all-Done fuel us t s' d.longer d.inv rest clean in
      (
        record { longer = d'.longer; keeps = λ x m. d'.keeps x (d.keeps x m); inv = d'.inv },
        (d'.keeps u here, all),
      )

  -- A search that reports no cycle leaves an order that has all names it was started from.
  pub detect_cycles-IsOrder :
      (fuel : ℕ) (names : List String) {s : Search}
      → detect_cycles graph fuel names ≡ some s
      → IsClean s
      → (order : List String) × IsOrder graph order × All (λ u. mem u order ≡ true) names
  unfolding detect_cycles
  detect_cycles-IsOrder fuel names {s} h clean =
      let start : Search = record { visited = λ x. false; rec_stack = λ x. false; cycles = [] } in
      let (d, all) =
        search_all-Done fuel names start s []
          (record { visited = λ x. refl; rec_stack = λ x. refl; is_order = tt }) h clean in
      (d.longer, d.inv.is_order, all)
