-- ===== src/Proto.antt =====
-- internal/proto/messages.go: the data that the controller and the agents exchange.
use dotdevops.Prelude.{ℕ, ◌+◌, String, Bool, List, length}
use dotdevops.Prelude.Int.{ℤ}

pub record FileMeta : Type 0 where
  pub path : String
  pub size : ℤ
  pub sha256 : String
  pub mode : ℕ
  pub uid : ℤ
  pub gid : ℤ
  pub is_dir : Bool

-- `map[string]FileMeta`, in the order in which a `range` loop visits it
abbrev pub FileTree : Type 0
FileTree = List (String × FileMeta)

pub record ChangeSet : Type 0 where
  pub create : List String
  pub to_update : List String
  pub delete : List String
  pub chmod : List String
  pub chown : List String
  pub mkdir : List String

pub record Outcome : Type 0 where
  pub status : String
  pub class : String
  pub exit_code : ℤ
  pub stdout : String
  pub stderr : String
  pub rollback_safe : Bool
  pub message : String
  pub applied : List String
  pub failed : List String

-- totalChanges of internal/controller/orchestrator.go
pub total_changes : ChangeSet → ℕ
total_changes cs =
    length cs.create
    + length cs.to_update
    + length cs.delete
    + length cs.chmod
    + length cs.chown
    + length cs.mkdir
