-- ===== src/State/Store/Laws.antt =====
-- What a reader of the table sees after an insertion, and what the readers return.
use dotdevops.Prelude.{
  ℕ, suc, ◌≤◌, String, ◌≡◌, refl, subst, true, false, ◌⊎◌, inl, inr, Bool-cases, Option-cases, some,
  [], ◌∷◌, map, ◌&&◌, ◌==◌, arith, length, eq_iff, eq_refl, ok, if◌then◌else◌,
}
use dotdevops.Json.{Fields}
use dotdevops.State.Store.{
  Codec, Row, Execution, Entry, Table, of_pair, select_first, select_all, insert, scan, scan_lax,
  latest_execution, last_successful, last_run, new_row,
}

-- The execution that a reader makes of an entry inserted into a table of `n` rows.
abbrev pub as_read : ℕ → ℕ → Entry → String → Fields → Execution
as_read n now e status inputs = record {
  id = suc n;
  node_id = e.node_id;
  target = e.target;
  primitive_type = e.primitive_type;
  plan_hash = e.plan_hash;
  node_hash = e.node_hash;
  content_hash = e.content_hash;
  timestamp = now;
  status = status;
  changes = e.changes;
  inputs = inputs;
}

-- The codec writes the change set and the inputs of an entry, and reads them back: the change set
-- as it was, the inputs as `inputs`.
pub record RoundTrips (codec : Codec) (e : Entry) (inputs : Fields) : Type 0 where
  pub changes_text : String
  pub inputs_text : String
  pub writes_changes : codec.marshal_changes e.changes ≡ some changes_text
  pub reads_changes : codec.unmarshal_changes changes_text ≡ some e.changes
  pub writes_inputs : codec.marshal_inputs e.inputs ≡ some inputs_text
  pub reads_inputs : codec.unmarshal_inputs inputs_text ≡ some inputs

module _ (codec : Codec) (now : ℕ) (e : Entry) (inputs : Fields) (rows : Table)
    (trip : RoundTrips codec e inputs) where
  abbrev inserted : Row
  inserted = new_row (length rows) now e trip.changes_text trip.inputs_text

  insert_lem : insert codec now e rows ≡ ok (inserted ∷ rows)
  unfolding insert
  insert_lem = ground (arith, trip.writes_changes, trip.writes_inputs)

  scan-inserted :
      (status : String)
      → scan codec status inserted ≡ ok (as_read (length rows) now e status inputs)
  unfolding scan
  scan-inserted status = ground (arith, trip.reads_changes, trip.reads_inputs)

  scan_lax-inserted : scan_lax codec inserted ≡ as_read (length rows) now e e.status inputs
  unfolding scan_lax
  scan_lax-inserted = rw (trip.reads_changes, trip.reads_inputs)

  -- A record is inserted, and then LatestExecution returns it for its node and target, and for
  -- any other pair what it returned before.
  pub latest_execution-insert :
      (rows' : Table) × (insert codec now e rows ≡ ok rows')
      × ((node target : String)
          → latest_execution codec node target rows' ≡ (
              if e.node_id == node && e.target == target
              then ok (some (as_read (length rows) now e e.status inputs))
              else latest_execution codec node target rows))
  unfolding latest_execution
  latest_execution-insert =
      (inserted ∷ rows, insert_lem, λ node target. ground (arith, scan-inserted e.status))

  -- LastSuccessful sees a new record only if it is an applied one of the pair.
  pub last_successful-insert :
      (rows' : Table) × (insert codec now e rows ≡ ok rows')
      × ((node target : String)
          → last_successful codec node target rows' ≡ (
              if (e.node_id == node && e.target == target) && e.status == "applied"
              then ok (some (as_read (length rows) now e "" inputs))
              else last_successful codec node target rows))
  unfolding last_successful
  last_successful-insert =
      (inserted ∷ rows, insert_lem, λ node target. ground (arith, scan-inserted ""))

  -- After a record of the plan that ran last, LastRun returns it before the others of that run; a
  -- record of another plan that is new to the table is a run of its own.
  pub last_run-insert :
      (rows' : Table) × (insert codec now e rows ≡ ok rows')
      × (last_run codec rows'
          ≡ as_read (length rows) now e e.status inputs
            ∷ map (scan_lax codec) (select_all (λ r. r.plan_hash == e.plan_hash) rows))
  unfolding last_run
  last_run-insert =
      (inserted ∷ rows, insert_lem, ground (arith, scan_lax-inserted, eq_refl e.plan_hash))

-- The ids count the insertions, so a row's id tells its age.
abbrev pub IsNumbered : Table → Type 0
IsNumbered [] = Unit
IsNumbered (r ∷ rows) = (r.id ≡ suc (length rows)) × IsNumbered rows

-- Every row of the pair has an id of at most `n`.
abbrev pub Newest : String → String → ℕ → Table → Type 0
Newest node target n [] = Unit
Newest node target n (r ∷ rows) =
    ((of_pair node target r ≡ false) ⊎ (r.id ≤ n)) × Newest node target n rows

Newest-length :
    (node target : String) (n : ℕ) (rows : Table)
    → IsNumbered rows
    → length rows ≤ n
    → Newest node target n rows
Newest-length node target n [] num h = tt
Newest-length node target n (r ∷ rows) num h =
    (inr (omega arith), Newest-length node target n rows num.1 (omega arith))

module _ (codec : Codec) where
  insert_cases :
      (now : ℕ) (e : Entry) (rows : Table) {rows' : Table}
      → insert codec now e rows ≡ ok rows'
      → (c i : String) × (new_row (length rows) now e c i ∷ rows ≡ rows')
  unfolding insert
  insert_cases now e rows h = ground arith

  -- The ids go on counting the insertions.
  pub insert-IsNumbered :
      (now : ℕ) (e : Entry) (rows : Table) {rows' : Table}
      → IsNumbered rows
      → insert codec now e rows ≡ ok rows'
      → IsNumbered rows'
  insert-IsNumbered now e rows num h =
      let (c, i, is) = insert_cases now e rows h in subst IsNumbered is (refl, num)

  selected :
      (node target : String) (rows : Table) {r : Row}
      → IsNumbered rows
      → select_first (of_pair node target) rows ≡ some r
      → (of_pair node target r ≡ true) × Newest node target r.id rows
  unfolding select_first
  selected node target [] num h = cc
  selected node target (x ∷ rows) {r} num h = elim (Bool-cases (of_pair node target x)) [
    | inl here ↦
        let same : x ≡ r = ground arith in
        subst (λ y. (of_pair node target y ≡ true) × Newest node target y.id (x ∷ rows)) same
          (here, (inr (omega arith), Newest-length node target x.id rows num.1 (omega arith)))
    | inr there ↦
        let (pair, newest) = selected node target rows {r = r} num.1 (ground arith) in
        (pair, (inl there, newest))
  ]

  scan_fields :
      (status : String) (r : Row) {x : Execution}
      → scan codec status r ≡ ok x
      → (x.node_id ≡ r.node_id) × (x.target ≡ r.target) × (r.id ≡ x.id)
  unfolding scan
  scan_fields status r h = ground arith

  -- LatestExecution returns an execution of the node and the target that were asked for, and no
  -- row of theirs is newer.
  pub latest_execution-Newest :
      (node target : String) (rows : Table) {x : Execution}
      → IsNumbered rows
      → latest_execution codec node target rows ≡ ok (some x)
      → (x.node_id ≡ node) × (x.target ≡ target) × Newest node target x.id rows
  unfolding latest_execution
  latest_execution-Newest node target rows {x} num h =
      elim (Option-cases (select_first (of_pair node target) rows)) [
        | inl nothing ↦ ground arith
        | inr (r, found) ↦
            let (pair, newest) = selected node target rows num found in
            let read : scan codec r.status r ≡ ok x = ground arith in
            let (named, aimed, same) = scan_fields r.status r read in
            (
              ground (arith, eq_iff r.node_id node),
              ground (arith, eq_iff r.target target),
              subst (λ k. Newest node target k rows) same newest,
            )
      ]
