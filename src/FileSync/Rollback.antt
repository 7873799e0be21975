-- ===== src/FileSync/Rollback.antt =====
-- Rollback of internal/primitive/filesync/rollback.go.
use dotdevops.Prelude.{
  String, ◌||◌, Option, none, some, List, [], ◌∷◌, ◌++◌, get?, update, if◌then◌else◌,
}
use dotdevops.Proto.{ChangeSet}
use dotdevops.FileSync.Disk.{
  Bytes, File, Snapshot, Disk, Host, put_file, made, add_dirs, bytes_eq, marker_path,
}

-- `result`, and the disk
pub record Undo : Type 0 where
  pub disk : Disk
  pub applied : List String
  pub failed : List String

module _ (host : Host) where
  -- copyFileSimple to the destination: a file that is there keeps its mode and owner
  abbrev pub overwritten : Bytes → Option File → File
  overwritten bytes none = made host host.new_mode bytes
  overwritten bytes (some f) = record f { bytes = bytes }

  unfoldable pub restore_one : String → Option Bytes → Undo → Undo
  restore_one rel none u = u
  restore_one rel (some bytes) u =
      if host.mkdir_fails rel || host.restore_fails rel
      then record u { failed = u.failed ++ rel ∷ [] }
      else record u {
        disk =
            put_file rel (some (overwritten bytes (u.disk.files rel)))
              (add_dirs (host.parents rel) u.disk);
        applied = u.applied ++ rel ∷ [];
      }

  -- the loop over toRestore
  unfoldable pub restore_all : Snapshot → List String → Undo → Undo
  unfolding restore_one
  restore_all snapshot [] u = u
  restore_all snapshot (rel ∷ rels) u =
      restore_all snapshot rels (restore_one rel (get? rel snapshot) u)

  -- a file that is not there counts as removed
  unfoldable pub discard_one : String → Option File → Undo → Undo
  discard_one rel none u = record u { applied = u.applied ++ rel ∷ [] }
  discard_one rel (some f) u =
      if host.remove_fails rel
      then record u { failed = u.failed ++ rel ∷ [] }
      else record u { disk = put_file rel none u.disk; applied = u.applied ++ rel ∷ [] }

  -- the loop over cs.Create
  unfoldable pub discard_all : List String → Undo → Undo
  unfolding discard_one
  discard_all [] u = u
  discard_all (rel ∷ rels) u = discard_all rels (discard_one rel (u.disk.files rel) u)

  -- the two calls that clean up
  unfoldable pub forget : Bytes → Undo → Undo
  forget name u = record u {
    disk = record u.disk {
      files = update u.disk.files marker_path none;
      snapshots = λ n. if bytes_eq name n then [] else u.disk.snapshots n;
    };
  }

  -- Rollback behind the reading of the marker
  unfoldable pub undo : ChangeSet → Disk → Option File → Undo
  unfolding restore_all discard_all forget
  undo cs disk none = record { disk = disk; applied = []; failed = [] }
  undo cs disk (some marker) = forget marker.bytes (
      discard_all cs.create (
        restore_all (disk.snapshots marker.bytes) (cs.to_update ++ cs.delete)
          (record { disk = disk; applied = []; failed = [] })))

  -- Rollback
  unfoldable pub rollback : ChangeSet → Disk → Undo
  unfolding undo
  rollback cs disk = undo cs disk (disk.files marker_path)
