-- ===== src/FileSync/Stream/Fold.antt =====
-- The loop over the chunks of streamed files, as a fold over the files.
use dotdevops.Prelude.{
  ℕ, String, ◌≡◌, refl, ap, ◌∙◌, true, false, ◌==◌, Option, none, some, List, [], ◌∷◌, ◌++◌, arith,
  mem, is_empty, Distinct, All, eq_iff, eq_refl, if◌then◌else◌,
}
use mathlib.Core.List.{append_assoc, append-nil}
use dotdevops.Prelude.Int.{ℤ}
use dotdevops.FileSync.Disk.{Bytes, Host}
use dotdevops.FileSync.Apply.{
  Chunk, LastRead, Open, Work, close_last, finish_current, finish_file, open_file, path_of,
  switch_to, write, end_chunk, take_chunk, receive,
}
use dotdevops.FileSync.Stream.{Source, chunks_of, stream_files}

-- No call of the operating system fails.
pub record Works (host : Host) : Type 0 where
  pub mkdir : (p : String) → host.mkdir_fails p ≡ false
  pub temp : (p : String) → host.temp_fails p ≡ false
  pub write : (p : String) → host.write_fails p ≡ false
  pub rename : (p : String) → host.rename_fails p ≡ false
  pub snapshot : (p : String) → host.snapshot_fails p ≡ false
  pub chmod : (p : String) → host.chmod_fails p ≡ false
  pub chown : (p : String) → host.chown_fails p ≡ false
  pub remove : (p : String) → host.remove_fails p ≡ false
  pub restore : (p : String) → host.restore_fails p ≡ false

abbrev pub joined : List Bytes → Bytes
joined [] = []
joined (piece ∷ pieces) = piece ++ joined pieces

-- The content of a source file, empty where it cannot be opened.
abbrev pub content : Source → String → Bytes
content source p = elim (source p) [ none ↦ [] | some pieces ↦ joined pieces ]

-- The file that is open has not been closed, and has another path.
abbrev pub Apart : String → Option Open → Type 0
Apart rel none = Unit
Apart rel (some f) = (f.closed ≡ false) × ((f.path == rel) ≡ false)

-- A file that is open for the path of a chunk.
abbrev pub opened : String → Bytes → Work → Work
opened rel bytes w = record w {
  current = some (record { path = rel; written = bytes; closed = false });
}

content-some :
    (source : Source) (rel : String) (pieces : List Bytes)
    → source rel ≡ some pieces
    → content source rel ≡ joined pieces
content-some source rel pieces e = rw (e, content) refl

stream_files-cons :
    (source : Source) (rel : String) (rels : List String) (pieces : List Bytes)
    → source rel ≡ some pieces
    → stream_files source (rel ∷ rels)
      ≡ (chunks_of rel pieces ++ (stream_files source rels).0, (stream_files source rels).1)
unfolding stream_files
stream_files-cons source rel rels pieces e = rw (e, stream_files) refl

-- A file that can be opened.
abbrev pub Opens : Source → String → Type 0
Opens source p = (pieces : List Bytes) × (source p ≡ some pieces)

module _ (host : Host) (mode : ℕ) (uid gid : ℤ) where
  -- A new file for the path, behind the end of the one that was open.
  abbrev pub next : String → Work → Work
  next rel w = (open_file host mode uid gid rel (close_last host mode uid gid w.current w)).1

  -- The chunks of one file are written to one new file.
  unfoldable pub take_file : String → Bytes → Work → Work
  take_file rel bytes w = if is_empty bytes then w else opened rel bytes (next rel w)

  -- What the files of a list make of the state.
  unfoldable pub take_files : Source → List String → Work → Work
  take_files source [] w = w
  take_files source (rel ∷ rels) w = take_files source rels (take_file rel (content source rel) w)

module _ (host : Host) (mode : ℕ) (uid gid : ℤ) (works : Works host) (needs : List String) where
  module _ (rel : String) (named : (rel == "") ≡ false) where
    -- A chunk with content for the file that is open is added to it.
    write_same :
        (piece bytes : Bytes) (more : is_empty piece ≡ false) (cs : List Chunk) (last : LastRead)
        (w : Work)
        → receive host mode uid gid needs
            (record { path = rel; bytes = piece; eof = false } ∷ cs)
            last
            (opened rel bytes w)
          ≡ receive host mode uid gid needs cs last (opened rel (bytes ++ piece) w)
    unfolding receive switch_to take_chunk write end_chunk
    write_same piece bytes more cs last w = rw (named, eq_refl rel, more, works.write rel)

    feed :
        (pieces : List Bytes) (bytes : Bytes) (rest : List Chunk) (last : LastRead) (w : Work)
        → receive host mode uid gid needs (chunks_of rel pieces ++ rest) last (opened rel bytes w)
          ≡ receive host mode uid gid needs rest last (opened rel (bytes ++ joined pieces) w)
    unfolding chunks_of
    feed [] bytes rest last w = rw append-nil
    feed ([] ∷ pieces) bytes rest last w = feed pieces bytes rest last w
    feed ((b ∷ bs) ∷ pieces) bytes rest last w =
        write_same (b ∷ bs) bytes refl (chunks_of rel pieces ++ rest) last w
        ∙ feed pieces (bytes ++ b ∷ bs) rest last w
        ∙ ap (λ all. receive host mode uid gid needs rest last (opened rel all w))
            (append_assoc bytes (b ∷ bs) (joined pieces))

    path_of-Apart : (o : Option Open) → Apart rel o → (path_of o == rel) ≡ false
    path_of-Apart none a = ground (arith, named, eq_iff "" rel, eq_iff rel "")
    path_of-Apart (some f) a = a.1

    finish_current-eq-close_last :
        (o : Option Open) (w : Work)
        → Apart rel o
        → finish_current host mode uid gid o w ≡ close_last host mode uid gid o w
    unfolding finish_current finish_file close_last
    finish_current-eq-close_last none w a = refl
    finish_current-eq-close_last (some f) w a = ground (arith, works.rename f.path)

    take_chunk-open_file :
        (piece : Bytes) (more : is_empty piece ≡ false) (w : Work)
        → take_chunk host mode uid gid
            (record { path = rel; bytes = piece; eof = false })
            (open_file host mode uid gid rel w)
          ≡ opened rel piece (open_file host mode uid gid rel w).1
    unfolding take_chunk write end_chunk open_file
    take_chunk-open_file piece more w = rw (works.temp rel, more, works.write rel)

    -- The first chunk of a file.
    write_first :
        (piece : Bytes) (more : is_empty piece ≡ false) (needed : mem rel needs ≡ true)
        (cs : List Chunk) (last : LastRead) (w : Work)
        → Apart rel w.current
        → receive host mode uid gid needs
            (record { path = rel; bytes = piece; eof = false } ∷ cs)
            last
            w
          ≡ receive host mode uid gid needs cs last
              (opened rel piece (next host mode uid gid rel w))
    unfolding receive switch_to
    write_first piece more needed cs last w apart =
        rw
          (
            named,
            path_of-Apart w.current apart,
            needed,
            finish_current-eq-close_last w.current w apart,
          )
          (ap (receive host mode uid gid needs cs last)
            (take_chunk-open_file piece more (close_last host mode uid gid w.current w)))

    pub receive-chunks_of :
        (pieces : List Bytes) (needed : mem rel needs ≡ true) (rest : List Chunk) (last : LastRead)
        (w : Work)
        → Apart rel w.current
        → receive host mode uid gid needs (chunks_of rel pieces ++ rest) last w
          ≡ receive host mode uid gid needs rest last
              (take_file host mode uid gid rel (joined pieces) w)
    unfolding chunks_of take_file
    receive-chunks_of [] needed rest last w apart = refl
    receive-chunks_of ([] ∷ pieces) needed rest last w apart =
        receive-chunks_of pieces needed rest last w apart
    receive-chunks_of ((b ∷ bs) ∷ pieces) needed rest last w apart =
        write_first (b ∷ bs) refl needed (chunks_of rel pieces ++ rest) last w apart
        ∙ feed pieces (b ∷ bs) rest last (next host mode uid gid rel w)

  -- After a file, the others are still apart from what is open.
  take_file-Apart :
      (rel p : String) (bytes : Bytes) (w : Work)
      → (rel == p) ≡ false
      → Apart p w.current
      → Apart p (take_file host mode uid gid rel bytes w).current
  unfolding take_file
  take_file-Apart rel p [] w ne apart = apart
  take_file-Apart rel p (b ∷ bs) w ne apart = (refl, ne)

  take_file-All :
      (rel : String) (ps : List String) (bytes : Bytes) (w : Work)
      → mem rel ps ≡ false
      → All (λ p. Apart p w.current) ps
      → All (λ p. Apart p (take_file host mode uid gid rel bytes w).current) ps
  take_file-All rel [] bytes w out all = tt
  take_file-All rel (p ∷ ps) bytes w out all = (
    take_file-Apart rel p bytes w (ground (arith, eq_iff rel p, eq_iff p rel)) all.0,
    take_file-All rel ps bytes w (ground arith) all.1,
  )

  pub receive-stream_files :
      (source : Source) (rels : List String) (last : LastRead) (w : Work)
      → Distinct rels
      → All (λ p. (p == "") ≡ false) rels
      → All (λ p. mem p needs ≡ true) rels
      → All (Opens source) rels
      → All (λ p. Apart p w.current) rels
      → receive host mode uid gid needs (stream_files source rels).0 last w
        ≡ take_files host mode uid gid source rels w
  unfolding take_files receive stream_files
  receive-stream_files source [] last w distinct named needed opens apart = refl
  receive-stream_files source (rel ∷ rels) last w distinct named needed opens apart =
      let (pieces, e) = opens.0 in
      rw (stream_files-cons source rel rels pieces e, content-some source rel pieces e)
        (receive-chunks_of rel named.0 pieces needed.0 (stream_files source rels).0 last w apart.0
          ∙ receive-stream_files source rels last
              (take_file host mode uid gid rel (joined pieces) w) distinct.1 named.1 needed.1
              opens.1 (take_file-All rel rels (joined pieces) w distinct.0 apart.1))
