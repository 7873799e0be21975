-- ===== src/FileSync/Stream.antt =====
-- streamFiles of internal/controller/orchestrator.go. A source file is the list of what the calls of
-- Read return before io.EOF, none where it cannot be opened; os.File returns io.EOF with no bytes, so
-- no chunk of a file has its EOF flag set. A read of a file that is open does not fail.
pub mod Fold
pub mod Placed
use dotdevops.Prelude.{
  String, Bool, true, false, Option, none, some, List, [], ◌∷◌, ◌++◌, is_empty, if◌then◌else◌,
}
use dotdevops.FileSync.Disk.{Bytes}
use dotdevops.FileSync.Apply.{Chunk}

abbrev pub Source : Type 0
Source = String → Option (List Bytes)

abbrev pub sentinel : Chunk
sentinel = record { path = ""; bytes = []; eof = true }

-- the inner loop, over the reads of one file
unfoldable pub chunks_of : String → List Bytes → List Chunk
chunks_of rel [] = []
chunks_of rel (piece ∷ pieces) =
    let rest = chunks_of rel pieces in
    if is_empty piece then rest else record { path = rel; bytes = piece; eof = false } ∷ rest

-- the chunks that are sent, and whether the files were all opened
unfoldable pub stream_files : Source → List String → List Chunk × Bool
unfolding chunks_of
stream_files source [] = (sentinel ∷ [], true)
stream_files source (rel ∷ rels) = elim (source rel) [
  | none ↦ ([], false)
  | some pieces ↦
      let (rest, sent) = stream_files source rels in (chunks_of rel pieces ++ rest, sent)
]
