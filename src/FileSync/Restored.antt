-- ===== src/FileSync/Restored.antt =====
-- Rollback after a sync.
use dotdevops.Prelude.{
  ℕ, String, ◌≡◌, refl, sym, ap, ◌∙◌, inl, inr, Bool, true, false, not, ◌&&◌, ◌||◌, ◌==◌, Option,
  none, some, List, [], ◌∷◌, ◌++◌, arith, mem, mem-append, is_empty, get?, Option-cases,
  String-cases, eq_iff, if◌then◌else◌,
}
use dotdevops.Prelude.Int.{ℤ}
use dotdevops.Proto.{ChangeSet}
use dotdevops.FileSync.Disk.{
  Bytes, File, Snapshot, Disk, Host, bytes_of, bytes_eq_refl, marker_path,
}
use dotdevops.FileSync.Apply.{Work, mark, marked, apply}
use dotdevops.FileSync.Rollback.{
  Undo, restore_one, restore_all, discard_one, discard_all, forget, undo, rollback,
}
use dotdevops.FileSync.Stream.{Source}
use dotdevops.FileSync.Stream.Fold.{Works, content}
use dotdevops.FileSync.Stream.Placed.{or_else}
use dotdevops.FileSync.Refine.{Consistent}
use dotdevops.FileSync.Contents.{
  changed, sync, settled, settled-bytes, settled-snapshot, mark-bytes,
}

abbrev bytes_left : Undo → String → Option Bytes
bytes_left u p = bytes_of (u.disk.files p)

restored_once :
    (same later : Bool) (saved old : Option Bytes)
    → (if later
        then or_else saved (if same then or_else saved old else old)
        else (if same then or_else saved old else old))
      ≡ (if same || later then or_else saved old else old)
restored_once true true none old = refl
restored_once true true (some b) old = refl
restored_once true false saved old = refl
restored_once false true saved old = refl
restored_once false false saved old = refl

module _ (host : Host) (works : Works host) where
  restore_one-bytes :
      (rel p : String) (saved : Option Bytes) (u : Undo)
      → bytes_left (restore_one host rel saved u) p
        ≡ (if rel == p then or_else saved (bytes_left u p) else bytes_left u p)
  unfolding restore_one
  restore_one-bytes rel p none u = ground arith
  restore_one-bytes rel p (some bytes) u = elim (Option-cases (u.disk.files rel)) [
    | inl e ↦ ground (arith, works.mkdir rel, works.restore rel)
    | inr (f, e) ↦ ground (arith, works.mkdir rel, works.restore rel)
  ]

  restore_at :
      (snapshot : Snapshot) (rel p : String) (u : Undo)
      → bytes_left (restore_one host rel (get? rel snapshot) u) p
        ≡ (if rel == p then or_else (get? p snapshot) (bytes_left u p) else bytes_left u p)
  restore_at snapshot rel p u = elim (String-cases rel p) [
    | inl e ↦ rw (← e) (restore_one-bytes rel rel (get? rel snapshot) u)
    | inr (ne, _, _) ↦ ground (arith, restore_one-bytes rel p (get? rel snapshot) u, ne)
  ]

  restore_all-bytes :
      (snapshot : Snapshot) (rels : List String) (p : String) (u : Undo)
      → bytes_left (restore_all host snapshot rels u) p
        ≡ (if mem p rels then or_else (get? p snapshot) (bytes_left u p) else bytes_left u p)
  unfolding restore_all
  restore_all-bytes snapshot [] p u = refl
  restore_all-bytes snapshot (rel ∷ rels) p u =
      restore_all-bytes snapshot rels p (restore_one host rel (get? rel snapshot) u)
      ∙ rw (restore_at snapshot rel p u)
          (restored_once (rel == p) (mem p rels) (get? p snapshot) (bytes_left u p))

  discard_one-bytes :
      (rel p : String) (o : Option File) (u : Undo)
      → u.disk.files rel ≡ o
      → bytes_left (discard_one host rel o u) p ≡ (if rel == p then none else bytes_left u p)
  unfolding discard_one
  discard_one-bytes rel p none u e = ground (arith, eq_iff rel p)
  discard_one-bytes rel p (some f) u e = ground (arith, works.remove rel)

  discard_all-bytes :
      (rels : List String) (p : String) (u : Undo)
      → bytes_left (discard_all host rels u) p ≡ (if mem p rels then none else bytes_left u p)
  unfolding discard_all
  discard_all-bytes [] p u = refl
  discard_all-bytes (rel ∷ rels) p u =
      discard_all-bytes rels p (discard_one host rel (u.disk.files rel) u)
      ∙ ground (arith, discard_one-bytes rel p (u.disk.files rel) u refl)

  forget-bytes :
      (name : Bytes) (u : Undo) (p : String)
      → (p == marker_path) ≡ false
      → bytes_left (forget host name u) p ≡ bytes_left u p
  unfolding forget
  forget-bytes name u p other = ground (arith, eq_iff marker_path p, eq_iff p marker_path)

  -- What Rollback leaves where the marker is there.
  undo-bytes :
      (cs : ChangeSet) (disk : Disk) (marker : File) (p : String)
      → (p == marker_path) ≡ false
      → bytes_left (undo host cs disk (some marker)) p ≡ (
          if mem p cs.create
          then none
          else if mem p (cs.to_update ++ cs.delete)
          then or_else (get? p (disk.snapshots marker.bytes)) (bytes_of (disk.files p))
          else bytes_of (disk.files p))
  unfolding undo
  undo-bytes cs disk marker p other =
      let u : Undo = record { disk = disk; applied = []; failed = [] } in
      let restored = restore_all host (disk.snapshots marker.bytes) (cs.to_update ++ cs.delete) u in
      forget-bytes marker.bytes (discard_all host cs.create restored) p other
      ∙ discard_all-bytes cs.create p restored
      ∙ ap (λ o. if mem p cs.create then none else o)
          (restore_all-bytes (disk.snapshots marker.bytes) (cs.to_update ++ cs.delete) p u)

-- The bytes under a path behind both, by what the change set says of it.
undone :
    (created updated deleted has : Bool) (old : Option Bytes) (new : Bytes)
    → (created ≡ true → old ≡ none)
    → (updated ≡ true → (bytes : Bytes) × (old ≡ some bytes))
    → ((created || updated) && deleted) ≡ false
    → (if created
        then none
        else if updated || deleted
        then or_else
            (if ((created || updated) && has) || deleted then old else none)
            (if deleted then none else if (created || updated) && has then some new else old)
        else (if deleted then none else if (created || updated) && has then some new else old))
      ≡ old
undone true updated deleted has old new c u apart = sym (c refl)
undone false true true has old new c u apart = cc
undone false true false true none new c u apart = absurd (ground (arith, (u refl).1))
undone false true false true (some bytes) new c u apart = refl
undone false true false false old new c u apart = refl
undone false false true has none new c u apart = ground arith
undone false false true has (some bytes) new c u apart = ground arith
undone false false false has old new c u apart = refl

get?-is_empty :
    (p : String) (s : Snapshot) (bytes : Bytes) → get? p s ≡ some bytes → is_empty s ≡ false
get?-is_empty p [] bytes h = cc
get?-is_empty p (e ∷ s) bytes h = refl

module _ (host : Host) (mode : ℕ) (uid gid : ℤ) where
  marked-bytes : (name : Bytes) (o : Option File) → (marked host mode uid gid name o).bytes ≡ name
  marked-bytes name none = refl
  marked-bytes name (some f) = refl

  -- The marker names the snapshot.
  mark_snapshot :
      (name : Bytes) (w : Work)
      → is_empty w.snapshot ≡ false
      → (f : File) × ((mark host mode uid gid name w).files marker_path ≡ some f)
        × ((mark host mode uid gid name w).snapshots f.bytes ≡ w.snapshot)
  unfolding mark
  mark_snapshot name w kept =
      let f = marked host mode uid gid name (w.disk.files marker_path) in
      let e = marked-bytes name (w.disk.files marker_path) in
      rw (kept, mark) (f, refl, rw (e, bytes_eq_refl name) refl)

  module _ (works : Works host) (source : Source) (cs : ChangeSet) (disk : Disk)
      (consistent : Consistent source cs disk) where
    -- If no call of the operating system fails, the change set fits the disk and the source, and it
    -- replaces or deletes a file that is there, then Rollback after a sync leaves under every path
    -- but the marker's the bytes that were there before the sync.
    pub rollback-sync :
        (name : Bytes) (q : String) (f : File)
        → changed source cs q ≡ true
        → disk.files q ≡ some f
        → (p : String) → (p == marker_path) ≡ false
        → bytes_of ((rollback host cs (sync host mode uid gid name source cs disk).0).disk.files p)
          ≡ bytes_of (disk.files p)
    unfolding rollback sync apply
    rollback-sync name q f changes there p other =
        let w = settled host mode uid gid source cs disk in
        let kept : is_empty w.snapshot ≡ false = get?-is_empty q w.snapshot f.bytes (
          settled-snapshot host mode uid gid works source cs disk consistent q
          ∙ rw (changes, there) refl) in
        let (marker, is, names) = mark_snapshot name w kept in
        let disk' = mark host mode uid gid name w in
        ap (λ o. bytes_left (undo host cs disk' o) p) is
        ∙ undo-bytes host works cs disk' marker p other
        ∙ rw
            (
              names,
              mark-bytes host mode uid gid name w p other,
              settled-snapshot host mode uid gid works source cs disk consistent p,
              settled-bytes host mode uid gid works source cs disk consistent p,
              mem-append p cs.to_update cs.delete,
              mem-append p cs.create cs.to_update,
            )
            (undone (mem p cs.create) (mem p cs.to_update) (mem p cs.delete)
              (not (is_empty (content source p))) (bytes_of (disk.files p)) (content source p)
              (λ m. ap bytes_of (consistent.created p m))
              (λ m. let (g, e) = consistent.updated p m in (g.bytes, ap bytes_of e))
              (ground (arith, consistent.apart p, mem-append p cs.create cs.to_update)))
