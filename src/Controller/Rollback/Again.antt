-- ===== src/Controller/Rollback/Again.antt =====
-- What RollbackLast does, and what a next call of it finds.
use dotdevops.Prelude.{
  String, ◌≡◌, Bool, true, false, ◌==◌, Option, some, List, [], ◌∷◌, ◌++◌, is_empty, All, Result,
  ok, err, ◌⊎◌, if◌then◌else◌,
}
use dotdevops.Controller.Rollback.Stored.{Same}
use dotdevops.State.Store.{Table, Execution, last_run}
use dotdevops.Controller.Node.{RollbackReq, text_of}
use dotdevops.Controller.Compare.{value_at}
use dotdevops.Controller.Rollback.{
  Outside, Refusal, no_previous_run, Progress, valid, rollback_request, is_skipped, is_there,
}

-- An execution that can be undone: it is no command, or it has a rollback command or no effects.
abbrev pub CanUndo : Execution → Type 0
CanUndo ex =
    ((ex.primitive_type == "process.exec") ≡ false)
    ⊎ (is_there (value_at "__rollback_cmd" ex.inputs) ≡ true)
    ⊎ ((text_of (value_at "__side_effects" ex.inputs) == "none") ≡ true)

abbrev Agreed : Option String → Type 0
Agreed answer = (answer ≡ some "yes") ⊎ (answer ≡ some "y")

-- The rollback of the executions may go on.
abbrev pub MayGoOn : Bool → Bool → Option String → List Execution → Type 0
MayGoOn json confirm answer exs =
    (confirm ≡ true) ⊎ All CanUndo exs ⊎ ((json ≡ false) × Agreed answer)

module _ (outside : Outside) where
  -- What a call does, list by list.
  unfoldable pub requests : List Execution → List RollbackReq
  requests [] = []
  requests (ex ∷ exs) =
      if is_skipped outside ex then requests exs else rollback_request outside ex ∷ requests exs

  unfoldable pub without_command : List Execution → List Execution
  without_command [] = []
  without_command (ex ∷ exs) =
      if is_skipped outside ex then ex ∷ without_command exs else without_command exs

  record Grown (h : String) (exs : List Execution) (p p' : Progress) : Type 0 where
    same : Same outside h p.rows p'.rows
    tried : p'.tried ≡ p.tried ++ requests exs
    skipped : p'.skipped ≡ p.skipped ++ without_command exs

  -- What RollbackLast does where it goes on.
  pub record RollsBack (rows : Table) (p : Progress) : Type 0 where
    pub tried : p.tried ≡ requests (valid (last_run outside.codec rows))
    pub skipped : p.skipped ≡ without_command (valid (last_run outside.codec rows))
    pub again : valid (last_run outside.codec p.rows) ≡ valid (last_run outside.codec rows)

  -- What each result of RollbackLast says: the store has no execution, or the run goes on if it may
  -- and only then.
  abbrev pub Outcome : Bool → Bool → Option String → Table → Result Refusal Progress → Type 0
  Outcome json confirm answer rows (ok p) =
      (is_empty rows ≡ false)
      × MayGoOn json confirm answer (valid (last_run outside.codec rows))
      × RollsBack rows p
  Outcome json confirm answer rows (err no_previous_run) = is_empty rows ≡ true
  Outcome json confirm answer rows (err e) =
      ¬ MayGoOn json confirm answer (valid (last_run outside.codec rows))
