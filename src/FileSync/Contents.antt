-- ===== src/FileSync/Contents.antt =====
-- Apply on the chunks that streamFiles sends for the change set (executeFileSync).
use dotdevops.Prelude.{
  ℕ, String, ◌≡◌, refl, sym, ap, ◌∙◌, subst, inl, inr, Bool, true, false, not, ◌&&◌, ◌||◌, ◌==◌,
  Option, none, some, List, [], arith, mem, is_empty, get?, Distinct, All-of_mem, Bool-cases,
  eq_iff, nat_beq, if◌then◌else◌,
}
use dotdevops.Prelude.Int.{ℤ, is_nonneg}
use dotdevops.Proto.{ChangeSet}
use dotdevops.FileSync.Disk.{Bytes, Disk, Host, bytes_of, marker_path}
use dotdevops.FileSync.Apply.{
  no_chunk, Work, make_all, chmod_all, chown_all, remove_all, mark, begin, transfer, settle, apply,
  close_last,
}
use dotdevops.FileSync.Stream.{Source, stream_files}
use dotdevops.FileSync.Stream.Fold.{Works, Apart, content, take_files, receive-stream_files}
use dotdevops.FileSync.Stream.Placed.{
  bytes_at, or_else, streamed, landed, take_files-bytes, take_files-snapshot,
}
use dotdevops.FileSync.Refine.{
  needs_of, Consistent, make_all-keeps, chmod_all-keeps, chown_all-keeps, remove_all-bytes,
  remove_all-snapshot,
}

or_else-none : (o : Option Bytes) → or_else o none ≡ o
or_else-none none = refl
or_else-none (some x) = refl

saved_once :
    (needed has deleted : Bool) (old new : Option Bytes)
    → (needed && deleted) ≡ false
    → (if deleted
        then or_else (if needed && has then new else old) (if needed && has then old else none)
        else (if needed && has then old else none))
      ≡ (if (needed && has) || deleted then old else none)
saved_once true has true old new h = cc
saved_once true true false old new h = refl
saved_once true false false old new h = refl
saved_once false has true old new h = or_else-none old
saved_once false has false old new h = refl

-- The bytes that a path is to have: none if it is deleted, those of the source if it is created or
-- updated from a file with content, and else those it had.
abbrev pub target : Source → ChangeSet → Option Bytes → String → Option Bytes
target source cs old p =
    if mem p cs.delete
    then none
    else if streamed source (needs_of cs) p
    then some (content source p)
    else old

-- A path whose bytes are replaced or deleted.
abbrev pub changed : Source → ChangeSet → String → Bool
changed source cs p = streamed source (needs_of cs) p || mem p cs.delete

module _ (host : Host) (mode : ℕ) (uid gid : ℤ) where
  -- streamFiles at the controller and Apply at the agent, whose chunk reader (handleApply of
  -- internal/agent/handler.go) turns the end of the connection into io.EOF
  unfoldable pub sync : Bytes → Source → ChangeSet → Disk → Disk × List String × List String
  sync name source cs disk =
      apply host mode uid gid name cs (stream_files source (needs_of cs)).0 no_chunk disk

  abbrev pub start : ChangeSet → Disk → Work
  start cs disk = make_all host mode uid gid (host.sort cs.mkdir) (begin disk)

  abbrev pub transferred : Source → ChangeSet → Disk → Work
  transferred source cs disk =
      transfer host mode uid gid cs (stream_files source (needs_of cs)).0 no_chunk disk

  abbrev pub settled : Source → ChangeSet → Disk → Work
  settled source cs disk = settle host mode uid gid cs (transferred source cs disk)

  abbrev Keeps : Work → Work → Type 0
  Keeps w w' = ((p : String) → bytes_at w' p ≡ bytes_at w p) × (w'.snapshot ≡ w.snapshot)

  Keeps-if : (b : Bool) (w x y : Work) → Keeps w x → Keeps w y → Keeps w (if b then x else y)
  Keeps-if true w x y k l = k
  Keeps-if false w x y k l = l

  pub mark-bytes :
      (name : Bytes) (w : Work) (p : String)
      → (p == marker_path) ≡ false
      → bytes_of ((mark host mode uid gid name w).files p) ≡ bytes_at w p
  unfolding mark
  mark-bytes name w p other = elim (Bool-cases (is_empty w.snapshot && not w.nested)) [
    | inl e ↦ ground arith
    | inr e ↦ ground (arith, eq_iff marker_path p, eq_iff p marker_path)
  ]

  -- Steps 3 and 4, before the deletions.
  settle_order :
      (cs : ChangeSet) (w : Work)
      → (w' : Work) × (settle host mode uid gid cs w ≡ remove_all host mode uid gid cs.delete w')
        × Keeps w w'
  unfolding settle
  settle_order cs w =
      let moded = if nat_beq mode 0 then w else chmod_all host mode uid gid cs.chmod w in
      let k : Keeps w moded =
        Keeps-if (nat_beq mode 0) w w (chmod_all host mode uid gid cs.chmod w) ((λ p. refl), refl)
          (
            (λ p. (chmod_all-keeps host mode uid gid cs.chmod w p).0),
            (chmod_all-keeps host mode uid gid cs.chmod w "").1,
          ) in
      (
        if is_nonneg uid && is_nonneg gid
            then chown_all host mode uid gid cs.chown moded
            else moded,
        refl,
        Keeps-if (is_nonneg uid && is_nonneg gid) w (chown_all host mode uid gid cs.chown moded)
            moded
            (
              (λ p. (chown_all-keeps host mode uid gid cs.chown moded p).0 ∙ k.0 p),
              (chown_all-keeps host mode uid gid cs.chown moded "").1 ∙ k.1,
            )
            k,
      )

  module _ (works : Works host) where
    settle-bytes :
        (cs : ChangeSet) (w : Work) (p : String)
        → bytes_at (settle host mode uid gid cs w) p
          ≡ (if mem p cs.delete then none else bytes_at w p)
    unfolding settle
    settle-bytes cs w p =
        let (w', e, k) = settle_order cs w in
        rw e (
          remove_all-bytes host mode uid gid works cs.delete p w'
          ∙ ap (λ o. if mem p cs.delete then none else o) (k.0 p))

    settle-snapshot :
        (cs : ChangeSet) (w : Work) (p : String)
        → Distinct cs.delete
        → get? p (settle host mode uid gid cs w).snapshot ≡ (
            if mem p cs.delete
            then or_else (bytes_at w p) (get? p w.snapshot)
            else get? p w.snapshot)
    unfolding settle
    settle-snapshot cs w p distinct =
        let (w', e, k) = settle_order cs w in
        rw e (
          remove_all-snapshot host mode uid gid works cs.delete p w' distinct
          ∙ ap (λ o. if mem p cs.delete then or_else o (get? p w'.snapshot) else get? p w'.snapshot)
              (k.0 p)
          ∙ ap (λ t. if mem p cs.delete then or_else (bytes_at w p) (get? p t) else get? p t) k.1)

    module _ (source : Source) (cs : ChangeSet) (disk : Disk)
        (consistent : Consistent source cs disk) where
      start_closed : (start cs disk).current ≡ none
      start_closed = (make_all-keeps host mode uid gid works (host.sort cs.mkdir) (begin disk)).2

      landed-start : landed host mode uid gid (start cs disk) ≡ start cs disk
      unfolding close_last
      landed-start = ap (λ o. close_last host mode uid gid o (start cs disk)) start_closed

      start_files : (landed host mode uid gid (start cs disk)).disk.files ≡ disk.files
      start_files =
          ap (λ w. w.disk.files) landed-start
          ∙ (make_all-keeps host mode uid gid works (host.sort cs.mkdir) (begin disk)).0

      start_snapshot : (landed host mode uid gid (start cs disk)).snapshot ≡ []
      start_snapshot =
          ap (λ w. w.snapshot) landed-start
          ∙ (make_all-keeps host mode uid gid works (host.sort cs.mkdir) (begin disk)).1

      transfer_fold :
          transferred source cs disk
          ≡ landed host mode uid gid
              (take_files host mode uid gid source (needs_of cs) (start cs disk))
      unfolding transfer
      transfer_fold = ap (landed host mode uid gid) (
          receive-stream_files host mode uid gid works (needs_of cs) source (needs_of cs) no_chunk
            (start cs disk) consistent.distinct (All-of_mem (needs_of cs) consistent.named)
            (All-of_mem (needs_of cs) (λ p m. m)) (All-of_mem (needs_of cs) consistent.opens)
            (All-of_mem (needs_of cs) (λ p m. subst (Apart p) (sym start_closed) tt)))

      pub transferred-bytes :
          (p : String)
          → bytes_at (transferred source cs disk) p ≡ (
              if streamed source (needs_of cs) p
              then some (content source p)
              else bytes_of (disk.files p))
      transferred-bytes p =
          ap (λ w. bytes_at w p) transfer_fold
          ∙ take_files-bytes host mode uid gid works source (needs_of cs) p (start cs disk)
          ∙ ap
              (λ f.
                if streamed source (needs_of cs) p then some (content source p) else bytes_of (f p))
              start_files

      pub transferred-snapshot :
          (p : String)
          → get? p (transferred source cs disk).snapshot
            ≡ (if streamed source (needs_of cs) p then bytes_of (disk.files p) else none)
      transferred-snapshot p =
          ap (λ w. get? p w.snapshot) transfer_fold
          ∙ take_files-snapshot host mode uid gid works source (needs_of cs) p (start cs disk)
              consistent.distinct
          ∙ ap
              (λ f.
                if streamed source (needs_of cs) p
                then or_else (bytes_of (f p))
                    (get? p (landed host mode uid gid (start cs disk)).snapshot)
                else get? p (landed host mode uid gid (start cs disk)).snapshot)
              start_files
          ∙ ap
              (λ t.
                if streamed source (needs_of cs) p
                then or_else (bytes_of (disk.files p)) (get? p t)
                else get? p t)
              start_snapshot
          ∙ ap (λ o. if streamed source (needs_of cs) p then o else none)
              (or_else-none (bytes_of (disk.files p)))

      pub settled-bytes :
          (p : String)
          → bytes_at (settled source cs disk) p ≡ target source cs (bytes_of (disk.files p)) p
      settled-bytes p =
          settle-bytes cs (transferred source cs disk) p
          ∙ ap (λ o. if mem p cs.delete then none else o) (transferred-bytes p)

      pub settled-snapshot :
          (p : String)
          → get? p (settled source cs disk).snapshot
            ≡ (if changed source cs p then bytes_of (disk.files p) else none)
      settled-snapshot p =
          settle-snapshot cs (transferred source cs disk) p consistent.once
          ∙ rw (transferred-bytes p, transferred-snapshot p)
              (saved_once (mem p (needs_of cs)) (not (is_empty (content source p)))
                (mem p cs.delete) (bytes_of (disk.files p)) (some (content source p))
                (ground (arith, consistent.apart p)))

      -- If no call of the operating system fails, and the change set fits the disk and the source,
      -- then a sync leaves under every path but the marker's the target's bytes.
      pub sync-target :
          (name : Bytes) (p : String)
          → (p == marker_path) ≡ false
          → bytes_of ((sync name source cs disk).0.files p)
            ≡ target source cs (bytes_of (disk.files p)) p
      unfolding sync apply mark
      sync-target name p other = mark-bytes name (settled source cs disk) p other ∙ settled-bytes p
