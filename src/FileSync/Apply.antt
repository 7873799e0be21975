-- ===== src/FileSync/Apply.antt =====
-- Apply of internal/primitive/filesync/apply.go. `mode`, `uid` and `gid` are what parseMode and
-- parseOwner make of the inputs. The chunks are those that the reader returns without an error;
-- `last` is the read that ends them. The write of the marker does not fail.
use dotdevops.Prelude.{
  ℕ, String, Bool, true, false, not, ◌&&◌, ◌||◌, ◌==◌, Option, none, some, List, [], ◌∷◌, ◌++◌, mem,
  is_empty, nat_beq, update, if◌then◌else◌,
}
use dotdevops.Prelude.Int.{ℤ, is_nonneg}
use dotdevops.Prelude.Text.{contains}
use dotdevops.Proto.{ChangeSet}
use dotdevops.FileSync.Disk.{
  Bytes, File, Snapshot, Disk, Host, put_file, made, add_dirs, bytes_eq, marker_path,
}
use dotdevops.FileSync.Diff.{append_uniq}

-- ChunkMsg
pub record Chunk : Type 0 where
  pub path : String
  pub bytes : Bytes
  pub eof : Bool

-- What ends the chunks: io.EOF or no chunk, whatever the error, at which Apply breaks in silence, or
-- a chunk together with another error. The reader of internal/agent/handler.go returns no chunk with
-- every error.
pub data LastRead : Type 0 where
  no_chunk : LastRead
  chunk_with_error : LastRead

-- `currentFile` and `currentPath`
pub record Open : Type 0 where
  pub path : String
  pub written : Bytes
  pub closed : Bool

-- The variables of Apply. `nested` tells whether a directory was made below the snapshot's own.
pub record Work : Type 0 where
  pub disk : Disk
  pub current : Option Open
  pub snapshot : Snapshot
  pub nested : Bool
  pub applied : List String
  pub failed : List String

abbrev pub fail : String → Work → Work
fail p w = record w { failed = w.failed ++ p ∷ [] }

abbrev pub succeed : String → Work → Work
succeed p w = record w { applied = w.applied ++ p ∷ [] }

abbrev pub after_last : LastRead → Work → Work
after_last no_chunk w = w
after_last chunk_with_error w = fail "chunk-stream" w

abbrev pub exists_at : Option File → Bool
exists_at none = false
exists_at (some f) = true

abbrev pub path_of : Option Open → String
path_of none = ""
path_of (some f) = f.path

abbrev pub begin : Disk → Work
begin disk = record {
  disk = disk;
  current = none;
  snapshot = [];
  nested = false;
  applied = [];
  failed = [];
}

module _ (host : Host) (mode : ℕ) (uid gid : ℤ) where
  -- step 1: the loop over the sorted directories
  unfoldable pub make_all : List String → Work → Work
  make_all [] w = w
  make_all (rel ∷ rels) w = make_all rels (
      if host.mkdir_fails rel
      then fail rel w
      else succeed rel (record w { disk = add_dirs (rel ∷ host.parents rel) w.disk }))

  abbrev pub with_mode : String → File → File
  with_mode p f = if nat_beq mode 0 || host.chmod_fails p then f else record f { mode = mode }

  abbrev pub with_owner : String → File → File
  with_owner p f =
      if (is_nonneg uid && is_nonneg gid) && not (host.chown_fails p)
      then record f { uid = uid; gid = gid }
      else f

  -- the file that a rename and the calls of Chmod and Chown behind it leave
  abbrev pub finished : String → Bytes → File
  finished p bytes = with_owner p (with_mode p (made host host.temp_mode bytes))

  -- finishCurrentFile on an open file: none is an error
  unfoldable pub finish_file : Open → Work → Option Work
  finish_file f w =
      if f.closed || host.rename_fails f.path
      then none
      else some (
          succeed f.path (record w {
            disk =
                put_file f.path (some (finished f.path f.written))
                  (add_dirs (host.parents f.path) w.disk);
            current = none;
          }))

  -- finishCurrentFile; an error is reported for the current path, and the closed file stays
  unfoldable pub finish_current : Option Open → Work → Work
  unfolding finish_file
  finish_current none w = w
  finish_current (some f) w = elim (finish_file f w) [
    | none ↦ fail f.path (record w { current = some (record f { closed = true }) })
    | some w' ↦ w'
  ]

  -- copyFileSimple from the destination to the snapshot directory
  unfoldable pub take_snapshot : String → Work → Work
  take_snapshot rel w = elim (w.disk.files rel) [
    | none ↦ record w { nested = w.nested || contains rel "/" }
    | some f ↦ record w {
      snapshot = if host.snapshot_fails rel then w.snapshot else (rel, f.bytes) ∷ w.snapshot;
      nested = w.nested || contains rel "/";
    }
  ]

  -- a new file for a chunk's path; the flag is false at `continue`
  unfoldable pub open_file : String → Work → Bool × Work
  unfolding take_snapshot
  open_file rel w =
      let kept = if exists_at (w.disk.files rel) then take_snapshot rel w else w in
      if host.temp_fails rel
      then (false, fail rel (record kept { disk = add_dirs (host.parents rel) kept.disk }))
      else (
        true,
        record kept {
          disk = add_dirs (host.parents rel) kept.disk;
          current = some (record { path = rel; written = []; closed = false });
        },
      )

  -- the change to another file
  unfoldable pub switch_to : List String → String → Work → Bool × Work
  unfolding finish_current open_file
  switch_to needs rel w =
      if path_of w.current == rel
      then (true, w)
      else let done = finish_current w.current w in
        if mem rel needs then open_file rel done else (false, done)

  -- the write of a chunk to the file that is open, if one is
  unfoldable pub write : Chunk → Option Open → Work → Work
  write c none w = w
  write c (some f) w =
      if is_empty c.bytes
      then w
      else if f.closed || host.write_fails c.path
      then fail c.path w
      else record w { current = some (record f { written = f.written ++ c.bytes }) }

  unfoldable pub end_chunk : Chunk → Work → Work
  unfolding finish_current
  end_chunk c w = if c.eof then finish_current w.current w else w

  -- the rest of the loop body, where there was no `continue`
  unfoldable pub take_chunk : Chunk → Bool × Work → Work
  unfolding write end_chunk
  take_chunk c (false, w) = w
  take_chunk c (true, w) = end_chunk c (write c w.current w)

  -- step 2: the loop over the chunks, and the last call of finishCurrentFile, whose error is dropped
  unfoldable pub receive : List String → List Chunk → LastRead → Work → Work
  unfolding switch_to take_chunk
  receive needs [] last w = after_last last w
  receive needs (c ∷ cs) last w =
      let rest = receive needs cs last (take_chunk c (switch_to needs c.path w)) in
      if c.path == "" && c.eof then w else rest

  unfoldable pub close_last : Option Open → Work → Work
  unfolding finish_file
  close_last none w = w
  close_last (some f) w = elim (finish_file f w) [ none ↦ w | some w' ↦ w' ]

  -- the body of the loop of step 3
  unfoldable pub chmod_one : String → Option File → Work → Work
  chmod_one rel none w = fail rel w
  chmod_one rel (some f) w = if host.chmod_fails rel then fail rel w else record w {
    disk = put_file rel (some (record f { mode = mode })) w.disk;
    applied = append_uniq w.applied rel;
  }

  -- step 3: the modes
  unfoldable pub chmod_all : List String → Work → Work
  unfolding chmod_one
  chmod_all [] w = w
  chmod_all (rel ∷ rels) w = chmod_all rels (chmod_one rel (w.disk.files rel) w)

  -- the body of the loop of step 4
  unfoldable pub chown_one : String → Option File → Work → Work
  chown_one rel none w = fail rel w
  chown_one rel (some f) w =
      if host.chown_fails rel
      then fail rel w
      else record w { disk = put_file rel (some (record f { uid = uid; gid = gid })) w.disk }

  -- step 4: the owners
  unfoldable pub chown_all : List String → Work → Work
  unfolding chown_one
  chown_all [] w = w
  chown_all (rel ∷ rels) w = chown_all rels (chown_one rel (w.disk.files rel) w)

  -- step 5: the deletions
  unfoldable pub remove_one : String → Work → Work
  unfolding take_snapshot
  remove_one rel w =
      let kept = take_snapshot rel w in
      if not (exists_at (w.disk.files rel)) || host.remove_fails rel
      then fail rel kept
      else succeed rel (record kept { disk = put_file rel none kept.disk })

  unfoldable pub remove_all : List String → Work → Work
  unfolding remove_one
  remove_all [] w = w
  remove_all (rel ∷ rels) w = remove_all rels (remove_one rel w)

  -- os.WriteFile keeps the mode and the owner of a file that is there
  abbrev pub marked : Bytes → Option File → File
  marked name none = made host host.marker_mode name
  marked name (some f) = record f { bytes = name }

  -- the marker, written where the snapshot directory `name` has content
  unfoldable pub mark : Bytes → Work → Disk
  mark name w = if is_empty w.snapshot && not w.nested then w.disk else record w.disk {
    files = update w.disk.files marker_path (some (marked name (w.disk.files marker_path)));
    snapshots = λ n. if bytes_eq name n then w.snapshot else w.disk.snapshots n;
  }

  -- steps 1 and 2
  unfoldable pub transfer : ChangeSet → List Chunk → LastRead → Disk → Work
  unfolding make_all receive close_last
  transfer cs chunks last disk =
      let w =
        receive (cs.create ++ cs.to_update) chunks last
          (make_all (host.sort cs.mkdir) (begin disk)) in
      close_last w.current w

  -- steps 3 to 5
  unfoldable pub settle : ChangeSet → Work → Work
  unfolding chmod_all chown_all remove_all
  settle cs w =
      let moded = if nat_beq mode 0 then w else chmod_all cs.chmod w in
      remove_all cs.delete
        (if is_nonneg uid && is_nonneg gid then chown_all cs.chown moded else moded)

  -- Apply: the disk it leaves, and the paths applied and failed; `name` is that of the snapshot
  -- directory, which the time makes unique
  unfoldable pub apply :
      Bytes → ChangeSet → List Chunk → LastRead → Disk → Disk × List String × List String
  unfolding transfer settle mark
  apply name cs chunks last disk =
      let w = settle cs (transfer cs chunks last disk) in (mark name w, w.applied, w.failed)

-- the status of a result
unfoldable pub status_of : List String → List String → String
status_of applied failed =
    if is_empty failed then "success" else if is_empty applied then "failed" else "partial"
