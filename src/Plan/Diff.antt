-- ===== src/Plan/Diff.antt =====
-- Diff of internal/plan/diff.go. reflect.DeepEqual on two nodes is the parameter `deep_equal`.
pub mod Same
use dotdevops.Prelude.{
  String, Bool, true, false, not, ◌||◌, ◌==◌, Option, none, some, List, [], ◌∷◌, ◌++◌, is_empty,
  if◌then◌else◌,
}
use dotdevops.Plan.Schema.{Node, Plan}

pub record NodeDiff : Type 0 where
  pub old : Node
  pub new : Node

pub record DiffResult : Type 0 where
  pub added : List Node
  pub removed : List Node
  pub changed : List NodeDiff

-- HasChanges
abbrev pub has_changes : DiffResult → Bool
has_changes r = (not (is_empty r.added) || not (is_empty r.removed)) || not (is_empty r.changed)

abbrev pub or_later : Option Node → Node → Option Node
or_later none n = some n
or_later (some m) n = some m

-- the map that a loop over the nodes fills: the last node with an id stays
abbrev pub node_at : String → List Node → Option Node
node_at id [] = none
node_at id (n ∷ ns) = let later = node_at id ns in if n.id == id then or_later later n else later

-- reflect.DeepEqual
module _ (deep_equal : Node → Node → Bool) where
  -- the body of the loop over the old nodes, behind the lookup
  unfoldable pub match_old : Node → Option Node → DiffResult → DiffResult
  match_old n none r = record r { removed = r.removed ++ n ∷ [] }
  match_old n (some m) r =
      if deep_equal n m
      then r
      else record r { changed = r.changed ++ record { old = n; new = m } ∷ [] }

  unfoldable pub visit_old : List Node → List Node → DiffResult → DiffResult
  unfolding match_old
  visit_old new_nodes [] r = r
  visit_old new_nodes (n ∷ ns) r = visit_old new_nodes ns (match_old n (node_at n.id new_nodes) r)

  -- the body of the loop over the new nodes, behind the lookup
  unfoldable pub match_new : Node → Option Node → DiffResult → DiffResult
  match_new n none r = record r { added = r.added ++ n ∷ [] }
  match_new n (some m) r = r

  unfoldable pub visit_new : List Node → List Node → DiffResult → DiffResult
  unfolding match_new
  visit_new old_nodes [] r = r
  visit_new old_nodes (n ∷ ns) r = visit_new old_nodes ns (match_new n (node_at n.id old_nodes) r)

  -- Diff
  unfoldable pub diff : Plan → Plan → DiffResult
  unfolding visit_old visit_new
  diff old new =
      visit_new old.nodes new.nodes
        (visit_old new.nodes old.nodes (record { added = []; removed = []; changed = [] }))
