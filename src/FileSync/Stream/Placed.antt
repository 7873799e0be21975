-- ===== src/FileSync/Stream/Placed.antt =====
-- What the fold over the streamed files leaves once the last one is closed: the bytes under each
-- path, and the copies in the snapshot directory.
use dotdevops.Prelude.{
  ℕ, String, ◌≡◌, refl, ap, ◌∙◌, inl, inr, Bool, true, false, not, ◌&&◌, ◌||◌, ◌==◌, Option, none,
  some, List, [], ◌∷◌, arith, mem, is_empty, get?, Distinct, Option-cases, String-cases, eq_iff,
  eq_refl, if◌then◌else◌,
}
use dotdevops.Prelude.Int.{ℤ}
use dotdevops.FileSync.Disk.{Bytes, Host, bytes_of}
use dotdevops.FileSync.Apply.{Work, take_snapshot, close_last, finish_file, open_file, finished}
use dotdevops.FileSync.Stream.{Source}
use dotdevops.FileSync.Stream.Fold.{Works, content, next, take_file, take_files, opened}

-- The bytes that a path has on the disk.
abbrev pub bytes_at : Work → String → Option Bytes
bytes_at w p = bytes_of (w.disk.files p)

abbrev pub or_else : Option Bytes → Option Bytes → Option Bytes
or_else none y = y
or_else (some x) y = some x

-- A path among `rels` whose source file has content.
abbrev pub streamed : Source → List String → String → Bool
streamed source rels p = mem p rels && not (is_empty (content source p))

-- A streamed file that has content, at its own path.
abbrev pub replaces : String → Bytes → String → Bool
replaces rel bytes p = not (is_empty bytes) && rel == p

-- The cases of a fold: a file before `p` in the list, the same file, and `p` later on.
pick-bytes :
    (same later has : Bool) (new old : Option Bytes)
    → (if later && has then new else (if has && same then new else old))
      ≡ (if (same || later) && has then new else old)
pick-bytes true later true new old = ground arith
pick-bytes true later false new old = ground arith
pick-bytes false later true new old = refl
pick-bytes false later false new old = refl

pick-snapshot :
    (same later has : Bool) (new old saved : Option Bytes)
    → (same && later) ≡ false
    → (if later && has
        then or_else
            (if has && same then new else old)
            (if has && same then or_else old saved else saved)
        else (if has && same then or_else old saved else saved))
      ≡ (if (same || later) && has then or_else old saved else saved)
pick-snapshot true true has new old saved h = cc
pick-snapshot true false true new old saved h = refl
pick-snapshot true false false new old saved h = refl
pick-snapshot false true true new old saved h = refl
pick-snapshot false true false new old saved h = refl
pick-snapshot false false true new old saved h = refl
pick-snapshot false false false new old saved h = refl

module _ (host : Host) (mode : ℕ) (uid gid : ℤ) where
  abbrev pub landed : Work → Work
  landed w = close_last host mode uid gid w.current w

module _ (host : Host) (mode : ℕ) (uid gid : ℤ) (works : Works host) where
  -- The bytes that opening a file leaves, and the snapshot.
  open-bytes :
      (rel : String) (w : Work) (p : String)
      → bytes_at (open_file host mode uid gid rel w).1 p ≡ bytes_at w p
  unfolding open_file take_snapshot
  open-bytes rel w p = elim (Option-cases (w.disk.files rel)) [
    | inl e ↦ ground (arith, works.temp rel)
    | inr (f, e) ↦ ground (arith, works.temp rel)
  ]

  open-snapshot :
      (rel : String) (w : Work) (p : String)
      → get? p (open_file host mode uid gid rel w).1.snapshot
        ≡ (if rel == p then or_else (bytes_at w p) (get? p w.snapshot) else get? p w.snapshot)
  unfolding open_file take_snapshot
  open-snapshot rel w p = elim (String-cases rel p) [
    | inl e ↦
        rw (← e, eq_refl rel)
          (elim (Option-cases (w.disk.files rel)) [
            | inl no_file ↦ ground (arith, works.temp rel)
            | inr (f, file) ↦ ground (arith, works.temp rel, works.snapshot rel, eq_refl rel)
          ])
    | inr (ne, _, _) ↦ rw ne (elim (Option-cases (w.disk.files rel)) [
      | inl no_file ↦ ground (arith, works.temp rel)
      | inr (f, file) ↦ ground (arith, works.temp rel, works.snapshot rel)
    ])
  ]

  finished-bytes :
      (rel : String) (bytes : Bytes) → (finished host mode uid gid rel bytes).bytes ≡ bytes
  finished-bytes rel bytes = ground arith

  close-bytes :
      (rel p : String) (bytes : Bytes) (w : Work)
      → bytes_at (landed host mode uid gid (opened rel bytes w)) p
        ≡ (if rel == p then some bytes else bytes_at w p)
  unfolding close_last finish_file
  close-bytes rel p bytes w = ground (arith, works.rename rel, finished-bytes rel bytes)

  close-snapshot :
      (rel : String) (bytes : Bytes) (w : Work)
      → (landed host mode uid gid (opened rel bytes w)).snapshot ≡ w.snapshot
  unfolding close_last finish_file
  close-snapshot rel bytes w = ground (arith, works.rename rel)

  take_file-bytes :
      (rel p : String) (bytes : Bytes) (w : Work)
      → bytes_at (landed host mode uid gid (take_file host mode uid gid rel bytes w)) p
        ≡ (if replaces rel bytes p then some bytes else bytes_at (landed host mode uid gid w) p)
  unfolding take_file close_last finish_file
  take_file-bytes rel p [] w = refl
  take_file-bytes rel p (b ∷ bs) w =
      close-bytes rel p (b ∷ bs) (next host mode uid gid rel w)
      ∙ ap (λ o. if rel == p then some (b ∷ bs) else o)
          (open-bytes rel (landed host mode uid gid w) p)

  take_file-snapshot :
      (rel p : String) (bytes : Bytes) (w : Work)
      → get? p (landed host mode uid gid (take_file host mode uid gid rel bytes w)).snapshot ≡ (
          if replaces rel bytes p
          then or_else
              (bytes_at (landed host mode uid gid w) p)
              (get? p (landed host mode uid gid w).snapshot)
          else get? p (landed host mode uid gid w).snapshot)
  unfolding take_file close_last finish_file
  take_file-snapshot rel p [] w = refl
  take_file-snapshot rel p (b ∷ bs) w =
      ap (get? p) (close-snapshot rel (b ∷ bs) (next host mode uid gid rel w))
      ∙ open-snapshot rel (landed host mode uid gid w) p

  file-bytes :
      (source : Source) (rel p : String) (w : Work)
      → bytes_at
          (landed host mode uid gid (take_file host mode uid gid rel (content source rel) w))
          p
        ≡ (if replaces rel (content source p) p
            then some (content source p)
            else bytes_at (landed host mode uid gid w) p)
  file-bytes source rel p w = elim (String-cases rel p) [
    | inl e ↦ rw (← e) (take_file-bytes rel rel (content source rel) w)
    | inr (ne, _, _) ↦ ground (arith, take_file-bytes rel p (content source rel) w, ne)
  ]

  file-snapshot :
      (source : Source) (rel p : String) (w : Work)
      → get? p
          (landed host mode uid gid
            (take_file host mode uid gid rel (content source rel) w)).snapshot
        ≡ (if replaces rel (content source p) p
            then or_else
                (bytes_at (landed host mode uid gid w) p)
                (get? p (landed host mode uid gid w).snapshot)
            else get? p (landed host mode uid gid w).snapshot)
  file-snapshot source rel p w = elim (String-cases rel p) [
    | inl e ↦ rw (← e) (take_file-snapshot rel rel (content source rel) w)
    | inr (ne, _, _) ↦ ground (arith, take_file-snapshot rel p (content source rel) w, ne)
  ]

  pub take_files-bytes :
      (source : Source) (rels : List String) (p : String) (w : Work)
      → bytes_at (landed host mode uid gid (take_files host mode uid gid source rels w)) p ≡ (
          if streamed source rels p
          then some (content source p)
          else bytes_at (landed host mode uid gid w) p)
  unfolding take_files
  take_files-bytes source [] p w = refl
  take_files-bytes source (rel ∷ rels) p w =
      take_files-bytes source rels p (take_file host mode uid gid rel (content source rel) w)
      ∙ rw (file-bytes source rel p w) (
          pick-bytes (rel == p) (mem p rels) (not (is_empty (content source p)))
            (some (content source p)) (bytes_at (landed host mode uid gid w) p))

  pub take_files-snapshot :
      (source : Source) (rels : List String) (p : String) (w : Work)
      → Distinct rels
      → get? p (landed host mode uid gid (take_files host mode uid gid source rels w)).snapshot ≡ (
          if streamed source rels p
          then or_else
              (bytes_at (landed host mode uid gid w) p)
              (get? p (landed host mode uid gid w).snapshot)
          else get? p (landed host mode uid gid w).snapshot)
  unfolding take_files
  take_files-snapshot source [] p w distinct = refl
  take_files-snapshot source (rel ∷ rels) p w distinct =
      take_files-snapshot source rels p (take_file host mode uid gid rel (content source rel) w)
        distinct.1
      ∙ rw (file-bytes source rel p w, file-snapshot source rel p w)
          (pick-snapshot (rel == p) (mem p rels) (not (is_empty (content source p)))
            (some (content source p)) (bytes_at (landed host mode uid gid w) p)
            (get? p (landed host mode uid gid w).snapshot)
            (ground (arith, eq_iff rel p, distinct.0)))
