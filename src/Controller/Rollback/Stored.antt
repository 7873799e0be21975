-- ===== src/Controller/Rollback/Stored.antt =====
-- The rows that RollbackLast records, and the executions of a plan that a call of LastRun finds behind them.
use dotdevops.Prelude.{
  String, ◌≡◌, ◌⊎◌, inl, inr, refl, ap, ◌∙◌, Bool, true, false, ◌||◌, ◌==◌, List, [], ◌∷◌, map,
  length, All, Option-cases, Bool-cases, eq_iff, if◌then◌else◌,
}
use dotdevops.State.Store.{Row, Table, Execution, new_row, insert, scan_lax, select_all, last_run}
use dotdevops.Controller.Rollback.{Outside, was_applied, valid, rollback_entry, record_as}

module _ (outside : Outside) where
  -- The executions of a plan.
  abbrev pub of_plan : String → Table → List Execution
  of_plan h rows = map (scan_lax outside.codec) (select_all (λ r. r.plan_hash == h) rows)

  -- The newest row is one of the plan.
  abbrev pub NewestOf : String → Table → Type 0
  NewestOf h [] = ⊥
  NewestOf h (r ∷ rows) = r.plan_hash ≡ h

  pub last_run-of_plan :
      (h : String) (rows : Table) → NewestOf h rows → last_run outside.codec rows ≡ of_plan h rows
  unfolding last_run
  last_run-of_plan h (r ∷ rows) e = ap (λ k. of_plan k (r ∷ rows)) e
  last_run-of_plan h [] e = elim e [ ]

  -- The row that is recorded, if one is.
  abbrev Recorded : String → Execution → Table → Table → Type 0
  Recorded status ex rows rows' =
      (rows' ≡ rows)
      ⊎ ((r : Row) × (rows' ≡ r ∷ rows) × (r.plan_hash ≡ ex.plan_hash) × (r.status ≡ status))

  record_as-Recorded :
      (status : String) (ex : Execution) (rows : Table)
      → Recorded status ex rows (record_as outside status ex rows)
  unfolding record_as insert
  record_as-Recorded status ex rows =
      elim (Option-cases (outside.codec.marshal_changes ex.changes)) [
        | inl e ↦ inl (rw (record_as, e) refl)
        | inr (changes, e) ↦ elim (Option-cases (outside.codec.marshal_inputs ex.inputs)) [
          | inl f ↦ inl (rw (record_as, e, f) refl)
          | inr (inputs, f) ↦ inr (
            new_row (length rows) outside.now (rollback_entry status ex) changes inputs,
            rw (record_as, e, f) refl,
            refl,
            refl,
          )
        ]
      ]

  -- The same executions are to be rolled back, and the newest row is one of the plan.
  abbrev pub Same : String → Table → Table → Type 0
  Same h rows rows' = (valid (of_plan h rows') ≡ valid (of_plan h rows)) × NewestOf h rows'

  valid-cons :
      (h : String) (r : Row) (rows : Table)
      → (r.status == "applied" || r.status == "partial") ≡ false
      → valid (of_plan h (r ∷ rows)) ≡ valid (of_plan h rows)
  unfolding select_all valid scan_lax
  valid-cons h r rows other = elim (Bool-cases (r.plan_hash == h)) [
    | inl e ↦ rw (e, select_all, other) refl
    | inr e ↦ rw (e, select_all) refl
  ]

  Recorded-Same :
      (h status : String) (ex : Execution) (rows rows' : Table)
      → (status == "applied" || status == "partial") ≡ false
      → ex.plan_hash ≡ h
      → NewestOf h rows
      → Recorded status ex rows rows'
      → Same h rows rows'
  Recorded-Same h status ex rows rows' other plan newest (inl e) = rw e (refl, newest)
  Recorded-Same h status ex rows rows' other plan newest (inr (r, e, of, is)) =
      rw e (valid-cons h r rows (rw is other), of ∙ plan)

  pub Same-trans : (h : String) (a b c : Table) → Same h a b → Same h b c → Same h a c
  Same-trans h a b c s t = (t.0 ∙ s.0, t.1)

  pub recorded-Same :
      (h status : String) (ex : Execution) (rows : Table)
      → (status == "applied" || status == "partial") ≡ false
      → ex.plan_hash ≡ h
      → NewestOf h rows
      → Same h rows (record_as outside status ex rows)
  recorded-Same h status ex rows other plan newest =
      Recorded-Same h status ex rows (record_as outside status ex rows) other plan newest
        (record_as-Recorded status ex rows)

  All-if :
      (P : Execution → Type 0) (b : Bool) (xs ys : List Execution)
      → (b ≡ true → All P xs)
      → (b ≡ false → All P ys)
      → All P (if b then xs else ys)
  All-if P true xs ys h k = h refl
  All-if P false xs ys h k = k refl

  -- Every execution of a plan has its hash.
  pub valid-All :
      (h : String) (rows : Table) → All (λ ex. ex.plan_hash ≡ h) (valid (of_plan h rows))
  unfolding valid select_all scan_lax
  valid-All h [] = tt
  valid-All h (r ∷ rows) = elim (Bool-cases (r.plan_hash == h)) [
    | inl e ↦
        rw (e, select_all)
          (All-if (λ ex. ex.plan_hash ≡ h) (was_applied (scan_lax outside.codec r))
            (scan_lax outside.codec r ∷ valid (of_plan h rows)) (valid (of_plan h rows))
            (λ a. ((eq_iff r.plan_hash h).0 e, valid-All h rows)) (λ a. valid-All h rows))
    | inr e ↦ rw (e, select_all) (valid-All h rows)
  ]
