-- ===== src/Plan/Diff/Same.antt =====
-- The plans between which Diff finds no change.
use dotdevops.Prelude.{
  ◌≡◌, ◌↔◌, refl, inl, inr, Bool, true, false, some, List, [], ◌∷◌, ◌++◌, arith, is_empty, All,
  Option-cases, Bool-cases,
}
use dotdevops.Plan.Schema.{Node, Plan}
use dotdevops.Plan.Diff.{
  DiffResult, has_changes, node_at, match_old, visit_old, match_new, visit_new, diff,
}

-- The nodes have a last node with the id of `n`.
abbrev pub Matched : List Node → Node → Type 0
Matched nodes n = (m : Node) × (node_at n.id nodes ≡ some m)

-- The last one is deeply equal to `n`.
abbrev pub Equalled : (Node → Node → Bool) → List Node → Node → Type 0
Equalled deep_equal nodes n = (m : Node) × (node_at n.id nodes ≡ some m) × (deep_equal n m ≡ true)

abbrev Unchanged : DiffResult → Type 0
Unchanged r = has_changes r ≡ false

is_empty-snoc {ℓ} : {A : Type ℓ} (xs : List A) (x : A) → is_empty (xs ++ x ∷ []) ≡ false
is_empty-snoc [] x = refl
is_empty-snoc (y ∷ xs) x = refl

module _ (deep_equal : Node → Node → Bool) (nodes : List Node) where
  match_old_iff :
      (n : Node) (r : DiffResult)
      → Unchanged (match_old deep_equal n (node_at n.id nodes) r)
        ↔ (Unchanged r × Equalled deep_equal nodes n)
  unfolding match_old
  match_old_iff n r = elim (Option-cases (node_at n.id nodes)) [
    | inl e ↦
        rw (e, match_old)
          (
            (λ h. absurd (ground (arith, is_empty-snoc r.removed n))),
            λ h. let (m, is, same) = h.1 in cc,
          )
    | inr (m, e) ↦ elim (Bool-cases (deep_equal n m)) [
      | inl same ↦ rw (e, match_old, same) ((λ h. (h, (m, refl, same))), λ h. h.0)
      | inr other ↦
          rw (e, match_old, other)
            (
              (λ h. absurd (ground (arith, is_empty-snoc r.changed (record { old = n; new = m })))),
              λ h. let (m', is, same) = h.1 in cc,
            )
    ]
  ]

  visit_old_iff :
      (ns : List Node) (r : DiffResult)
      → Unchanged (visit_old deep_equal nodes ns r)
        ↔ (Unchanged r × All (Equalled deep_equal nodes) ns)
  unfolding visit_old
  visit_old_iff [] r = ((λ h. (h, tt)), λ h. h.0)
  visit_old_iff (n ∷ ns) r =
      let first = match_old_iff n r in
      let rest = visit_old_iff ns (match_old deep_equal n (node_at n.id nodes) r) in
      (
        (λ h. ((first.0 (rest.0 h).0).0, ((first.0 (rest.0 h).0).1, (rest.0 h).1))),
        λ h. rest.1 (first.1 (h.0, h.1.0), h.1.1),
      )

  match_new_iff :
      (n : Node) (r : DiffResult)
      → Unchanged (match_new deep_equal n (node_at n.id nodes) r) ↔ (Unchanged r × Matched nodes n)
  unfolding match_new
  match_new_iff n r = elim (Option-cases (node_at n.id nodes)) [
    | inl e ↦
        rw (e, match_new)
          ((λ h. absurd (ground (arith, is_empty-snoc r.added n))), λ h. let (m, is) = h.1 in cc)
    | inr (m, e) ↦ rw (e, match_new) ((λ h. (h, (m, refl))), λ h. h.0)
  ]

  visit_new_iff :
      (ns : List Node) (r : DiffResult)
      → Unchanged (visit_new deep_equal nodes ns r) ↔ (Unchanged r × All (Matched nodes) ns)
  unfolding visit_new
  visit_new_iff [] r = ((λ h. (h, tt)), λ h. h.0)
  visit_new_iff (n ∷ ns) r =
      let first = match_new_iff n r in
      let rest = visit_new_iff ns (match_new deep_equal n (node_at n.id nodes) r) in
      (
        (λ h. ((first.0 (rest.0 h).0).0, ((first.0 (rest.0 h).0).1, (rest.0 h).1))),
        λ h. rest.1 (first.1 (h.0, h.1.0), h.1.1),
      )

-- Diff finds no change exactly if for each old node the last new node with its id is deeply equal to
-- it, and each new node has the id of an old one.
pub diff-has_changes_iff :
    (deep_equal : Node → Node → Bool) (old new : Plan)
    → (has_changes (diff deep_equal old new) ≡ false)
      ↔ (All (Equalled deep_equal new.nodes) old.nodes × All (Matched old.nodes) new.nodes)
unfolding diff
diff-has_changes_iff deep_equal old new =
    let start : DiffResult = record { added = []; removed = []; changed = [] } in
    let olds = visit_old_iff deep_equal new.nodes old.nodes start in
    let news =
      visit_new_iff deep_equal old.nodes new.nodes
        (visit_old deep_equal new.nodes old.nodes start) in
    ((λ h. ((olds.0 (news.0 h).0).1, (news.0 h).1)), λ h. news.1 (olds.1 (refl, h.0), h.1))
