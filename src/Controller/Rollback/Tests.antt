-- ===== src/Controller/Rollback/Tests.antt =====
-- RollbackLast on a store with one applied execution, twice.
use dotdevops.Prelude.{String, ◌≡◌, refl, true, false, some, List, [], ◌∷◌, map, Result, ok, err}
use dotdevops.Json.{end}
use dotdevops.State.Store.{Codec, Row, Table, no_changes, insert, last_run}
use dotdevops.Controller.Rollback.{Outside, Refusal, irreversible, Progress, rollback_last}

abbrev codec : Codec
codec = record {
  marshal_changes = λ cs. some "{}";
  unmarshal_changes = λ s. some no_changes;
  marshal_inputs = λ fs. some "{}";
  unmarshal_inputs = λ s. some end;
}

abbrev outside : Outside
outside = record {
  codec = codec;
  now = 9;
  with_port = λ a. a;
  sprint = λ v. "";
  reply = λ a req. some (record { error = ""; status = "success" });
  answer = some "no";
}

abbrev row : String → Row
row type = record {
  id = 1;
  node_id = "n";
  target = "t";
  primitive_type = type;
  plan_hash = "p";
  node_hash = "h";
  content_hash = "c";
  timestamp = 1;
  status = "applied";
  changeset_json = "{}";
  inputs_json = "{}";
}

abbrev tried_by : Result Refusal Progress → List String
tried_by (ok p) = map (λ q. q.node_id) p.tried
tried_by (err e) = []

abbrev rows_behind : Result Refusal Progress → Table
rows_behind (ok p) = p.rows
rows_behind (err e) = []

abbrev once : Result Refusal Progress
once = rollback_last outside true false (row "file.sync" ∷ [])

once_tried : tried_by once ≡ "n" ∷ []
unfolding rollback_last last_run insert
once_tried = refl

-- The second call rolls the same execution back again.
twice_tried : tried_by (rollback_last outside true false (rows_behind once)) ≡ "n" ∷ []
unfolding rollback_last last_run insert
twice_tried = refl

-- A command without a rollback command and with side effects wants a confirmation.
exec_refused : rollback_last outside true false (row "process.exec" ∷ []) ≡ err irreversible
unfolding rollback_last last_run insert
exec_refused = refl
