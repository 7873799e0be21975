-- ===== src/State/Tests.antt =====
-- Insertions into a table, under an encoder for which every value has one text.
use dotdevops.Prelude.{String, ◌≡◌, refl, ◌&&◌, ◌==◌, some, [], ◌∷◌, ok, if◌then◌else◌}
use dotdevops.Json.{end}
use dotdevops.State.Store.{
  Codec, Row, Entry, Table, new_row, no_changes, insert, scan, select_first, select_all,
  latest_execution, scan_lax, list,
}
use dotdevops.State.Store.Laws.{
  RoundTrips, as_read, latest_execution-insert, Newest, latest_execution-Newest,
}

abbrev codec : Codec
codec = record {
  marshal_changes = λ c. some "{}";
  unmarshal_changes = λ s. some no_changes;
  marshal_inputs = λ f. some "{}";
  unmarshal_inputs = λ s. some end;
}

abbrev entry : Entry
entry = record {
  node_id = "a";
  target = "host";
  primitive_type = "file.sync";
  plan_hash = "p";
  node_hash = "n";
  content_hash = "c";
  status = "applied";
  changes = no_changes;
  inputs = end;
}

abbrev row : Row
row = new_row 0 5 entry "{}" "{}"

trip : RoundTrips codec entry end
trip = record {
  changes_text = "{}";
  inputs_text = "{}";
  writes_changes = refl;
  reads_changes = refl;
  writes_inputs = refl;
  reads_inputs = refl;
}

list-row : list codec "a" (row ∷ []) ≡ as_read 0 5 entry "applied" end ∷ []
unfolding list scan_lax select_all
list-row = refl

latest_execution-insert_example :
    (rows : Table) × (insert codec 7 entry (row ∷ []) ≡ ok rows)
    × ((node target : String)
        → latest_execution codec node target rows ≡ (
            if "a" == node && "host" == target
            then ok (some (as_read 1 7 entry "applied" end))
            else latest_execution codec node target (row ∷ [])))
latest_execution-insert_example = latest_execution-insert codec 7 entry end (row ∷ []) trip

latest_execution-Newest_example :
    (entry.node_id ≡ "a") × (entry.target ≡ "host") × Newest "a" "host" 1 (row ∷ [])
unfolding latest_execution scan select_first
latest_execution-Newest_example =
    latest_execution-Newest codec "a" "host" (row ∷ []) {x = as_read 0 5 entry "applied" end}
      (refl, tt) refl
