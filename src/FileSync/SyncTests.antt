-- ===== src/FileSync/SyncTests.antt =====
-- Runs of Apply and Rollback on small disks, and the theorems at concrete inputs.
use dotdevops.Prelude.{
  String, ◌≡◌, refl, Bool, false, ◌==◌, none, some, List, [], ◌∷◌, mem, of_mem-All, if◌then◌else◌,
}
use dotdevops.Prelude.Int.{pos}
use dotdevops.Proto.{ChangeSet}
use dotdevops.FileSync.Disk.{Bytes, File, Disk, Host, bytes_of}
use dotdevops.FileSync.Apply.{Chunk, no_chunk, chunk_with_error, apply, status_of}
use dotdevops.FileSync.Rollback.{rollback}
use dotdevops.FileSync.Stream.{Source, stream_files}
use dotdevops.FileSync.Stream.Fold.{Works, Opens}
use dotdevops.FileSync.Refine.{needs_of, Consistent}
use dotdevops.FileSync.Contents.{target, sync, sync-target}
use dotdevops.FileSync.Restored.{rollback-sync}

abbrev never : String → Bool
never p = false

abbrev host : Host
host = record {
  parents = λ p. [];
  sort = λ ps. ps;
  temp_mode = 384;
  marker_mode = 420;
  new_mode = 420;
  user = pos 0;
  group = pos 0;
  mkdir_fails = never;
  temp_fails = never;
  write_fails = never;
  rename_fails = never;
  snapshot_fails = never;
  chmod_fails = never;
  chown_fails = never;
  remove_fails = never;
  restore_fails = never;
}

works : Works host
works = record {
  mkdir = λ p. refl;
  temp = λ p. refl;
  write = λ p. refl;
  rename = λ p. refl;
  snapshot = λ p. refl;
  chmod = λ p. refl;
  chown = λ p. refl;
  remove = λ p. refl;
  restore = λ p. refl;
}

abbrev file : Bytes → File
file bytes = record { bytes = bytes; mode = 420; uid = pos 0; gid = pos 0 }

-- "conf" and "old" are there.
abbrev disk : Disk
disk = record {
  files = λ p.
      if p == "conf"
      then some (file (7 ∷ 8 ∷ []))
      else if p == "old"
      then some (file (9 ∷ []))
      else none;
  dirs = λ p. false;
  snapshots = λ n. [];
}

-- The source has "new", "conf" in two reads, and "blank", which is empty.
abbrev source : Source
source p =
    if p == "new"
    then some ((1 ∷ []) ∷ [])
    else if p == "conf"
    then some ((2 ∷ 3 ∷ []) ∷ (4 ∷ []) ∷ [])
    else if p == "blank"
    then some []
    else none

abbrev cs : ChangeSet
cs = record {
  create = "new" ∷ [];
  to_update = "conf" ∷ [];
  delete = "old" ∷ [];
  chmod = [];
  chown = [];
  mkdir = "etc" ∷ [];
}

fits : Consistent source cs disk
fits = record {
  distinct = (refl, (refl, tt));
  once = (refl, tt);
  apart = of_mem-All (λ p. mem p cs.delete ≡ false) (needs_of cs) (refl, (refl, tt));
  named = of_mem-All (λ p. (p == "") ≡ false) (needs_of cs) (refl, (refl, tt));
  opens =
      of_mem-All (Opens source) (needs_of cs)
        (((1 ∷ []) ∷ [], refl), (((2 ∷ 3 ∷ []) ∷ (4 ∷ []) ∷ [], refl), tt));
  updated =
      of_mem-All (λ p. (f : File) × (disk.files p ≡ some f)) cs.to_update
        ((file (7 ∷ 8 ∷ []), refl), tt);
  created = of_mem-All (λ p. disk.files p ≡ none) cs.create (refl, tt);
}

abbrev synced : Disk × List String × List String
synced = sync host 0 (pos 0) (pos 0) (5 ∷ []) source cs disk

synced_conf : bytes_of (synced.0.files "conf") ≡ some (2 ∷ 3 ∷ 4 ∷ [])
unfolding sync apply stream_files
synced_conf = refl

synced_paths : synced.1 ≡ "etc" ∷ "new" ∷ "conf" ∷ "old" ∷ []
unfolding sync apply stream_files
synced_paths = refl

sync-target_example :
    bytes_of (synced.0.files "conf") ≡ target source cs (bytes_of (disk.files "conf")) "conf"
sync-target_example =
    sync-target host 0 (pos 0) (pos 0) works source cs disk fits (5 ∷ []) "conf" refl

rollback-sync_example :
    bytes_of ((rollback host cs synced.0).disk.files "old") ≡ bytes_of (disk.files "old")
rollback-sync_example =
    rollback-sync host 0 (pos 0) (pos 0) works source cs disk fits (5 ∷ []) "conf"
      (file (7 ∷ 8 ∷ [])) refl refl "old" refl

-- The stream ends behind the first chunk of "conf".
abbrev lost : List Chunk
lost = record { path = "conf"; bytes = 2 ∷ []; eof = false } ∷ []

-- A path that is created from an empty source file is never made.
abbrev blank_cs : ChangeSet
blank_cs = record {
  create = "blank" ∷ [];
  to_update = [];
  delete = [];
  chmod = [];
  chown = [];
  mkdir = [];
}

blank_synced : sync host 0 (pos 0) (pos 0) (5 ∷ []) source blank_cs disk ≡ (disk, [], [])
unfolding sync apply stream_files
blank_synced = refl

-- Rollback after a change set that only creates leaves the file.
abbrev new_cs : ChangeSet
new_cs = record {
  create = "new" ∷ [];
  to_update = [];
  delete = [];
  chmod = [];
  chown = [];
  mkdir = [];
}

created_stays :
    bytes_of (
      (rollback host new_cs (sync host 0 (pos 0) (pos 0) (5 ∷ []) source new_cs disk).0).disk.files
        "new")
    ≡ some (1 ∷ [])
unfolding sync apply stream_files rollback
created_stays = refl

-- Where the connection ends there, half of the file is kept, "old" is deleted and all is a success.
lost_apply : Disk × List String × List String
lost_apply = apply host 0 (pos 0) (pos 0) (5 ∷ []) cs lost no_chunk disk

lost_conf : bytes_of (lost_apply.0.files "conf") ≡ some (2 ∷ [])
unfolding lost_apply apply
lost_conf = refl

lost_status : status_of lost_apply.1 lost_apply.2 ≡ "success"
unfolding lost_apply apply status_of
lost_status = refl

-- A chunk that comes with an error is a failure.
error_apply : Disk × List String × List String
error_apply = apply host 0 (pos 0) (pos 0) (5 ∷ []) cs lost chunk_with_error disk

error_status : status_of error_apply.1 error_apply.2 ≡ "partial"
unfolding error_apply apply status_of
error_status = refl
