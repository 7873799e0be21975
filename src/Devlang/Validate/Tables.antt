-- ===== src/Devlang/Validate/Tables.antt =====
-- The symbol tables of a file, and the loops that append errors.
use dotdevops.Prelude.{
  String, ◌≡◌, refl, sym, ap, ◌∙◌, true, false, ◌||◌, ◌==◌, Option, none, some, List, [], ◌∷◌, ◌++◌,
  arith, mem, get?, has, Bool-cases, inl, inr, eq_iff, eq_refl, All, subst,
}
use dotdevops.Devlang.Comp.{ok}
use dotdevops.Devlang.Decl.{TargetDecl, NodeDecl, Decl, target_decl, node_decl}
use dotdevops.Devlang.Validate.{
  Problem, duplicate_target, duplicate_node, each, settle, keys, found, pick, fold, Symbols,
  add_symbol, symbols,
}

pub append-nil : (xs ys : List Problem) → xs ++ ys ≡ [] → (xs ≡ []) × (ys ≡ [])
append-nil [] ys h = (refl, h)
append-nil (x ∷ xs) ys h = cc

pub settle-ok : (ps : List Problem) {u : Unit {0}} → settle ps ≡ ok u → ps ≡ []
settle-ok [] h = refl
settle-ok (p ∷ ps) h = cc

pub All-each {ℓ} :
    {A : Type ℓ} (f : A → List Problem) (xs : List A) → each f xs ≡ [] → All (λ x. f x ≡ []) xs
All-each f [] h = tt
All-each f (x ∷ xs) h =
    let (now, later) = append-nil (f x) (each f xs) h in (now, All-each f xs later)

module _ {ℓ} {V : Type ℓ} where
  pub get?-append :
      (x : String) (m n : List (String × V)) {v : V} → get? x m ≡ some v → get? x (m ++ n) ≡ some v
  get?-append x [] n h = cc
  get?-append x ((y, w) ∷ m) n {v} h = ground (arith, get?-append x m n {v = v})

  pub get?-append_new :
      (x : String) (m : List (String × V)) (v : V)
      → has x m ≡ false
      → get? x (m ++ (x, v) ∷ []) ≡ some v
  get?-append_new x [] v h = ground (arith, eq_refl x)
  get?-append_new x ((y, w) ∷ m) v h = ground (arith, get?-append_new x m v)

  pub has-append : (x : String) (m n : List (String × V)) → has x (m ++ n) ≡ (has x m || has x n)
  has-append x [] n = refl
  has-append x ((y, w) ∷ m) n = ground (arith, has-append x m n)

  pub mem-keys-of_get? :
      (x : String) (m : List (String × V)) {v : V} → get? x m ≡ some v → mem x (keys m) ≡ true
  mem-keys-of_get? x [] h = cc
  mem-keys-of_get? x ((y, w) ∷ m) {v} h = ground (arith, mem-keys-of_get? x m {v = v})

  pub absent-has : (x : String) (m : List (String × V)) → get? x m ≡ none → has x m ≡ false
  absent-has x [] h = refl
  absent-has x ((y, w) ∷ m) h = ground (arith, absent-has x m)

  All-found :
      (P : String × V → Type 0) (k : String) (o : Option V) (m : List (String × V))
      → All P (found k o m)
      → All P m
  All-found P k none m all = all
  All-found P k (some v) m all = all.1

  -- What holds of all visited entries holds of each entry.
  pub All-pick :
      (P : String × V → Type 0) (m : List (String × V)) (ks : List String) (x : String) {v : V}
      → All P (pick m ks)
      → mem x ks ≡ true
      → get? x m ≡ some v
      → P (x, v)
  All-pick P m [] x all i h = cc
  All-pick P m (k ∷ ks) x {v} all i h = elim (Bool-cases (k == x)) [
    | inl e ↦
        let same : k ≡ x = (eq_iff k x).0 e in
        let at : get? k m ≡ some v = subst (λ y. get? y m ≡ some v) (sym same) h in
        let here : All P ((k, v) ∷ pick m ks) = subst (λ o. All P (found k o (pick m ks))) at all in
        subst (λ y. P (y, v)) same here.0
    | inr ne ↦ All-pick P m ks x (All-found P k (get? k m) (pick m ks) all) (ground arith) h
  ]

-- the names of the targets and of the nodes of a file
abbrev pub target_names : List Decl → List String
target_names [] = []
target_names (target_decl t ∷ ds) = t.name ∷ target_names ds
target_names (d ∷ ds) = target_names ds

abbrev pub node_names : List Decl → List String
node_names [] = []
node_names (node_decl n ∷ ds) = n.name ∷ node_names ds
node_names (d ∷ ds) = node_names ds

-- every node of a file
abbrev pub AllNodes : (NodeDecl → Type 0) → List Decl → Type 0
AllNodes P [] = Unit
AllNodes P (node_decl n ∷ ds) = P n × AllNodes P ds
AllNodes P (d ∷ ds) = AllNodes P ds

has_same {ℓ} :
    {V : Type ℓ} (y x : String) (m : List (String × V))
    → has y m ≡ true
    → has x m ≡ (has x m || y == x)
has_same y x m h = elim (Bool-cases (y == x)) [
  | inl e ↦
      let there : has x m ≡ true = subst (λ z. has z m ≡ true) ((eq_iff y x).0 e) h in ground arith
  | inr ne ↦ ground arith
]

module _ (s : Symbols) where
  target-has :
      (t : TargetDecl) (x : String)
      → has x (add_symbol s (target_decl t)).targets ≡ (has x s.targets || t.name == x)
  unfolding add_symbol
  target-has t x = elim (Bool-cases (has t.name s.targets)) [
    | inl old ↦ rw old (has_same t.name x s.targets old)
    | inr new ↦ rw new (ground (arith, has-append x s.targets ((t.name, t) ∷ [])))
  ]

  target-nodes : (t : TargetDecl) → (add_symbol s (target_decl t)).nodes ≡ s.nodes
  unfolding add_symbol
  target-nodes t = ground arith

  node-targets : (n : NodeDecl) → (add_symbol s (node_decl n)).targets ≡ s.targets
  unfolding add_symbol
  node-targets n = ground arith

  node-has :
      (n : NodeDecl) (x : String)
      → has x (add_symbol s (node_decl n)).nodes ≡ (has x s.nodes || n.name == x)
  unfolding add_symbol
  node-has n x = elim (Bool-cases (has n.name s.nodes)) [
    | inl old ↦ rw old (has_same n.name x s.nodes old)
    | inr new ↦ rw new (ground (arith, has-append x s.nodes ((n.name, n) ∷ [])))
  ]

  node-kept :
      (n : NodeDecl) (x : String) {m : NodeDecl}
      → get? x s.nodes ≡ some m
      → get? x (add_symbol s (node_decl n)).nodes ≡ some m
  unfolding add_symbol
  node-kept n x {m} h = ground (arith, get?-append x s.nodes ((n.name, n) ∷ []) {v = m})

  target-errs : (t : TargetDecl) → (add_symbol s (target_decl t)).errs ≡ [] → s.errs ≡ []
  unfolding add_symbol
  target-errs t h = elim (Bool-cases (has t.name s.targets)) [
    | inl old ↦ (append-nil s.errs (duplicate_target t.name ∷ []) (rw old at h)).0
    | inr new ↦ rw new at h
  ]

  -- A node that is no duplicate stands in the table.
  node-errs :
      (n : NodeDecl)
      → (add_symbol s (node_decl n)).errs ≡ []
      → (s.errs ≡ []) × (get? n.name (add_symbol s (node_decl n)).nodes ≡ some n)
  unfolding add_symbol
  node-errs n h = elim (Bool-cases (has n.name s.nodes)) [
    | inl old ↦ absurd (cc ((append-nil s.errs (duplicate_node n.name ∷ []) (rw old at h)).1))
    | inr new ↦ (rw new at h, rw new (get?-append_new n.name s.nodes n new))
  ]

fold-targets :
    (ds : List Decl) (s : Symbols) (x : String)
    → has x (fold add_symbol s ds).targets ≡ (has x s.targets || mem x (target_names ds))
unfolding add_symbol
fold-targets [] s x = ground arith
fold-targets (target_decl t ∷ ds) s x =
    ground (arith, fold-targets ds (add_symbol s (target_decl t)) x, target-has s t x)
fold-targets (node_decl n ∷ ds) s x =
    fold-targets ds (add_symbol s (node_decl n)) x
    ∙ ap (λ m. has x m || mem x (target_names ds)) (node-targets s n)
fold-targets (d ∷ ds) s x = fold-targets ds s x

fold-nodes :
    (ds : List Decl) (s : Symbols) (x : String)
    → has x (fold add_symbol s ds).nodes ≡ (has x s.nodes || mem x (node_names ds))
unfolding add_symbol
fold-nodes [] s x = ground arith
fold-nodes (node_decl n ∷ ds) s x =
    ground (arith, fold-nodes ds (add_symbol s (node_decl n)) x, node-has s n x)
fold-nodes (target_decl t ∷ ds) s x =
    fold-nodes ds (add_symbol s (target_decl t)) x
    ∙ ap (λ m. has x m || mem x (node_names ds)) (target-nodes s t)
fold-nodes (d ∷ ds) s x = fold-nodes ds s x

fold-kept :
    (ds : List Decl) (s : Symbols) (x : String) {m : NodeDecl}
    → get? x s.nodes ≡ some m
    → get? x (fold add_symbol s ds).nodes ≡ some m
unfolding add_symbol
fold-kept [] s x h = h
fold-kept (node_decl n ∷ ds) s x h = fold-kept ds (add_symbol s (node_decl n)) x (node-kept s n x h)
fold-kept (target_decl t ∷ ds) s x {m} h =
    fold-kept ds (add_symbol s (target_decl t)) x
      (subst (λ l. get? x l ≡ some m) (sym (target-nodes s t)) h)
fold-kept (d ∷ ds) s x h = fold-kept ds s x h

fold-errs : (ds : List Decl) (s : Symbols) → (fold add_symbol s ds).errs ≡ [] → s.errs ≡ []
unfolding add_symbol
fold-errs [] s h = h
fold-errs (node_decl n ∷ ds) s h = (node-errs s n (fold-errs ds (add_symbol s (node_decl n)) h)).0
fold-errs (target_decl t ∷ ds) s h = target-errs s t (fold-errs ds (add_symbol s (target_decl t)) h)
fold-errs (d ∷ ds) s h = fold-errs ds s h

fold-found :
    (ds : List Decl) (s : Symbols)
    → (fold add_symbol s ds).errs ≡ []
    → AllNodes (λ n. get? n.name (fold add_symbol s ds).nodes ≡ some n) ds
unfolding add_symbol
fold-found [] s h = tt
fold-found (node_decl n ∷ ds) s h =
    let s' = add_symbol s (node_decl n) in
    (fold-kept ds s' n.name (node-errs s n (fold-errs ds s' h)).1, fold-found ds s' h)
fold-found (target_decl t ∷ ds) s h = fold-found ds (add_symbol s (target_decl t)) h
fold-found (d ∷ ds) s h = fold-found ds s h

-- The tables have the names of the file, and without an error every node stands under its name.
module _ (ds : List Decl) where
  pub symbols-targets : (x : String) → has x (symbols ds).targets ≡ mem x (target_names ds)
  unfolding symbols
  symbols-targets x = fold-targets ds _ x

  pub symbols-nodes : (x : String) → has x (symbols ds).nodes ≡ mem x (node_names ds)
  unfolding symbols
  symbols-nodes x = fold-nodes ds _ x

  pub symbols-found :
      (symbols ds).errs ≡ [] → AllNodes (λ n. get? n.name (symbols ds).nodes ≡ some n) ds
  unfolding symbols
  symbols-found h = fold-found ds _ h

-- What holds of all entries holds of the one that a lookup finds.
module _ {ℓ} {V : Type ℓ} (P : String × V → Type 0) where
  pub All-get? :
      (m : List (String × V)) (k : String) {v : V} → All P m → get? k m ≡ some v → P (k, v)
  All-get? [] k all h = cc
  All-get? ((j, w) ∷ m) k {v} all h = elim (Bool-cases (j == k)) [
    | inl e ↦
        let is : w ≡ v = ground arith in
        subst (λ z. P (z, v)) ((eq_iff j k).0 e) (subst (λ u. P (j, u)) is all.0)
    | inr e ↦ All-get? m k all.1 (ground arith)
  ]
