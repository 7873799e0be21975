-- ===== src/Devlang/Steps/Depth.antt =====
-- The fuel of the search: the names that it can come to are enough.
use dotdevops.Prelude.{
  ℕ, zero, suc, ◌+◌, ◌≤◌, ◌<◌, String, ◌≡◌, refl, sym, subst, Bool, true, false, ◌==◌, Option, some,
  List, [], ◌∷◌, ◌++◌, arith, mem, length, eq_iff, Bool-cases, inl, inr, All, Map, if◌then◌else◌,
}
use dotdevops.Devlang.Steps.{
  Search, from, closed, look_at, look_at_all, enter, leave, dfs, search_all, detect_cycles,
}

-- The names that have not been visited.
abbrev fresh : Map Bool → List String → ℕ
fresh visited [] = 0
fresh visited (x ∷ xs) = (if visited x then 0 else 1) + fresh visited xs

-- What has been visited stays so.
abbrev Keeps : Search → Search → Type 0
Keeps s s' = (x : String) → s.visited x ≡ true → s'.visited x ≡ true

fresh-le :
    (xs : List String) (s s' : Search) → Keeps s s' → fresh s'.visited xs ≤ fresh s.visited xs
fresh-le [] s s' k = omega arith
fresh-le (x ∷ xs) s s' k = ground (arith, k x, fresh-le xs s s' k)

fresh-length : (visited : Map Bool) (xs : List String) → fresh visited xs ≤ length xs
fresh-length visited [] = omega arith
fresh-length visited (x ∷ xs) = ground (arith, fresh-length visited xs)

enter-Keeps : (u : String) (s : Search) → Keeps s (enter u s)
unfolding enter
enter-Keeps u s x h = ground arith

fresh-enter :
    (u : String) (xs : List String) (s : Search)
    → mem u xs ≡ true
    → s.visited u ≡ false
    → fresh (enter u s).visited xs < fresh s.visited xs
unfolding enter
fresh-enter u [] s m new = cc
fresh-enter u (x ∷ xs) s m new = elim (Bool-cases (x == u)) [
  | inl e ↦
      let same = (eq_iff x u).0 e in
      let here : s.visited x ≡ false = subst (λ y. s.visited y ≡ false) (sym same) new in
      ground (arith, fresh-le xs s (enter u s) (enter-Keeps u s), eq_iff u x)
  | inr ne ↦ ground (arith, fresh-enter u xs s (ground arith) new, eq_iff u x, eq_iff x u)
]

module _ (graph : Map (List String)) (known : List String)
    (closed_under : (x : String)
      → mem x known ≡ true
      → All (λ v. mem v known ≡ true) (graph x)) where
  Returns : (String → Search → Option Search) → ℕ → Type 0
  Returns go room =
      (v : String) (s : Search)
      → mem v known ≡ true
      → s.visited v ≡ false
      → fresh s.visited known ≤ room
      → (s' : Search) × (go v s ≡ some s') × Keeps s s'

  module _ (go : String → Search → Option Search) (path : List String) (room : ℕ)
      (returns : Returns go room) where
    look_at-some :
        (v : String) (s : Search)
        → mem v known ≡ true
        → fresh s.visited known ≤ room
        → (s' : Search) × (look_at go path v s ≡ some s') × Keeps s s'
    unfolding look_at Returns
    look_at-some v s m enough = elim (Bool-cases (s.visited v)) [
      | inr new ↦ let (s', is, keeps) = returns v s m new enough in (s', rw new is, keeps)
      | inl old ↦ elim (Bool-cases (s.rec_stack v)) [
        | inl on ↦
            (record s { cycles = s.cycles ++ closed v (from v path) }, rw (old, on) refl, λ x h. h)
        | inr off ↦ (s, rw (old, off) refl, λ x h. h)
      ]
    ]

    look_at_all-some :
        (vs : List String) (s : Search)
        → All (λ v. mem v known ≡ true) vs
        → fresh s.visited known ≤ room
        → (s' : Search) × (look_at_all go path vs s ≡ some s') × Keeps s s'
    unfolding look_at_all
    look_at_all-some [] s all enough = (s, refl, λ x h. h)
    look_at_all-some (v ∷ vs) s all enough =
        let (t, first, keeps) = look_at-some v s all.0 enough in
        let (s', rest, keeps') =
          look_at_all-some vs t all.1 (omega (arith, fresh-le known s t keeps)) in
        (s', rw first rest, λ x h. keeps' x (keeps x h))

  dfs-Returns : (fuel : ℕ) (path : List String) → Returns (λ v s. dfs graph fuel v path s) fuel
  unfolding Returns dfs leave
  dfs-Returns zero path v s m new enough = absurd (omega (arith, fresh-enter v known s m new))
  dfs-Returns (suc fuel) path v s m new enough =
      let (t, below, keeps) =
        look_at_all-some (λ w r. dfs graph fuel w (path ++ v ∷ []) r) (path ++ v ∷ []) fuel
          (dfs-Returns fuel (path ++ v ∷ [])) (graph v) (enter v s) (closed_under v m)
          (omega (arith, fresh-enter v known s m new)) in
      (leave v t, rw below refl, λ x h. keeps x (enter-Keeps v s x h))

  search_all-some :
      (fuel : ℕ) (us : List String) (s : Search)
      → All (λ u. mem u known ≡ true) us
      → fresh s.visited known ≤ fuel
      → (s' : Search) × (search_all graph fuel us s ≡ some s')
  unfolding search_all Returns
  search_all-some fuel [] s all enough = (s, refl)
  search_all-some fuel (u ∷ us) s all enough = elim (Bool-cases (s.visited u)) [
    | inl old ↦ let (s', rest) = search_all-some fuel us s all.1 enough in (s', rw old rest)
    | inr new ↦
        let (t, first, keeps) = dfs-Returns fuel [] u s all.0 new enough in
        let (s', rest) =
          search_all-some fuel us t all.1 (omega (arith, fresh-le known s t keeps)) in
        (s', rw (new, first) rest)
  ]

  -- The search returns on as much fuel as there are names in a list that has the names it starts
  -- from and all that these point to.
  pub detect_cycles-some :
      (fuel : ℕ) (names : List String)
      → All (λ u. mem u known ≡ true) names
      → length known ≤ fuel
      → (s : Search) × (detect_cycles graph fuel names ≡ some s)
  unfolding detect_cycles
  detect_cycles-some fuel names all enough =
      search_all-some fuel names _ all (omega (arith, fresh-length (λ x. false) known))
