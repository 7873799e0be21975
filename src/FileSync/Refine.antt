-- ===== src/FileSync/Refine.antt =====
-- What Apply does to the bytes under each path and to the snapshot directory when no call of the
-- operating system fails.
use dotdevops.Prelude.{
  ℕ, String, ◌≡◌, refl, ◌∙◌, inl, inr, true, false, ◌==◌, Option, none, some, List, [], ◌∷◌, ◌++◌,
  arith, mem, get?, Distinct, Option-cases, String-cases, eq_iff, eq_refl, if◌then◌else◌,
}
use dotdevops.Prelude.Int.{ℤ}
use dotdevops.Proto.{ChangeSet}
use dotdevops.FileSync.Disk.{File, Disk, Host}
use dotdevops.FileSync.Apply.{
  Work, make_all, chmod_one, chmod_all, chown_one, chown_all, remove_one, remove_all, take_snapshot,
}
use dotdevops.FileSync.Stream.{Source}
use dotdevops.FileSync.Stream.Fold.{Works, Opens}
use dotdevops.FileSync.Stream.Placed.{bytes_at, or_else}

abbrev pub needs_of : ChangeSet → List String
needs_of cs = cs.create ++ cs.to_update

-- A change set that fits the disk and the source.
pub record Consistent (source : Source) (cs : ChangeSet) (disk : Disk) : Type 0 where
  pub distinct : Distinct (needs_of cs)
  pub once : Distinct cs.delete
  pub apart : (p : String) → mem p (needs_of cs) ≡ true → mem p cs.delete ≡ false
  pub named : (p : String) → mem p (needs_of cs) ≡ true → (p == "") ≡ false
  pub opens : (p : String) → mem p (needs_of cs) ≡ true → Opens source p
  pub updated : (p : String) → mem p cs.to_update ≡ true → (f : File) × (disk.files p ≡ some f)
  pub created : (p : String) → mem p cs.create ≡ true → disk.files p ≡ none

module _ (host : Host) (mode : ℕ) (uid gid : ℤ) where
  -- The modes and the owners leave the bytes.
  chmod_one-keeps :
      (rel : String) (o : Option File) (w : Work) (p : String)
      → w.disk.files rel ≡ o
      → (bytes_at (chmod_one host mode uid gid rel o w) p ≡ bytes_at w p)
        × ((chmod_one host mode uid gid rel o w).snapshot ≡ w.snapshot)
  unfolding chmod_one
  chmod_one-keeps rel none w p e = (refl, refl)
  chmod_one-keeps rel (some f) w p e = (ground (arith, eq_iff rel p), ground arith)

  pub chmod_all-keeps :
      (rels : List String) (w : Work) (p : String)
      → (bytes_at (chmod_all host mode uid gid rels w) p ≡ bytes_at w p)
        × ((chmod_all host mode uid gid rels w).snapshot ≡ w.snapshot)
  unfolding chmod_all
  chmod_all-keeps [] w p = (refl, refl)
  chmod_all-keeps (rel ∷ rels) w p =
      let w' = chmod_one host mode uid gid rel (w.disk.files rel) w in
      let one = chmod_one-keeps rel (w.disk.files rel) w p refl in
      ((chmod_all-keeps rels w' p).0 ∙ one.0, (chmod_all-keeps rels w' p).1 ∙ one.1)

  chown_one-keeps :
      (rel : String) (o : Option File) (w : Work) (p : String)
      → w.disk.files rel ≡ o
      → (bytes_at (chown_one host mode uid gid rel o w) p ≡ bytes_at w p)
        × ((chown_one host mode uid gid rel o w).snapshot ≡ w.snapshot)
  unfolding chown_one
  chown_one-keeps rel none w p e = (refl, refl)
  chown_one-keeps rel (some f) w p e = (ground (arith, eq_iff rel p), ground arith)

  pub chown_all-keeps :
      (rels : List String) (w : Work) (p : String)
      → (bytes_at (chown_all host mode uid gid rels w) p ≡ bytes_at w p)
        × ((chown_all host mode uid gid rels w).snapshot ≡ w.snapshot)
  unfolding chown_all
  chown_all-keeps [] w p = (refl, refl)
  chown_all-keeps (rel ∷ rels) w p =
      let w' = chown_one host mode uid gid rel (w.disk.files rel) w in
      let one = chown_one-keeps rel (w.disk.files rel) w p refl in
      ((chown_all-keeps rels w' p).0 ∙ one.0, (chown_all-keeps rels w' p).1 ∙ one.1)

  module _ (works : Works host) where
    pub make_all-keeps :
        (rels : List String) (w : Work)
        → ((make_all host mode uid gid rels w).disk.files ≡ w.disk.files)
          × ((make_all host mode uid gid rels w).snapshot ≡ w.snapshot)
          × ((make_all host mode uid gid rels w).current ≡ w.current)
    unfolding make_all
    make_all-keeps [] w = (refl, refl, refl)
    make_all-keeps (rel ∷ rels) w = rw (works.mkdir rel, make_all) (make_all-keeps rels _)

    remove_one-bytes :
        (rel p : String) (w : Work)
        → bytes_at (remove_one host mode uid gid rel w) p
          ≡ (if rel == p then none else bytes_at w p)
    unfolding remove_one take_snapshot
    remove_one-bytes rel p w = elim (Option-cases (w.disk.files rel)) [
      | inl e ↦ ground (arith, eq_iff rel p)
      | inr (f, e) ↦ ground (arith, works.remove rel)
    ]

    remove_one-snapshot :
        (rel p : String) (w : Work)
        → get? p (remove_one host mode uid gid rel w).snapshot
          ≡ (if rel == p then or_else (bytes_at w p) (get? p w.snapshot) else get? p w.snapshot)
    unfolding remove_one take_snapshot
    remove_one-snapshot rel p w = elim (String-cases rel p) [
      | inl e ↦
          rw (← e, eq_refl rel)
            (elim (Option-cases (w.disk.files rel)) [
              | inl no_file ↦ ground arith
              | inr (f, file) ↦ ground (arith, works.remove rel, works.snapshot rel, eq_refl rel)
            ])
      | inr (ne, _, _) ↦ rw ne (elim (Option-cases (w.disk.files rel)) [
        | inl no_file ↦ ground arith
        | inr (f, file) ↦ ground (arith, works.remove rel, works.snapshot rel)
      ])
    ]

    pub remove_all-bytes :
        (rels : List String) (p : String) (w : Work)
        → bytes_at (remove_all host mode uid gid rels w) p
          ≡ (if mem p rels then none else bytes_at w p)
    unfolding remove_all
    remove_all-bytes [] p w = refl
    remove_all-bytes (rel ∷ rels) p w =
        remove_all-bytes rels p (remove_one host mode uid gid rel w)
        ∙ ground (arith, remove_one-bytes rel p w)

    pub remove_all-snapshot :
        (rels : List String) (p : String) (w : Work)
        → Distinct rels
        → get? p (remove_all host mode uid gid rels w).snapshot
          ≡ (if mem p rels then or_else (bytes_at w p) (get? p w.snapshot) else get? p w.snapshot)
    unfolding remove_all
    remove_all-snapshot [] p w distinct = refl
    remove_all-snapshot (rel ∷ rels) p w distinct =
        remove_all-snapshot rels p (remove_one host mode uid gid rel w) distinct.1
        ∙ ground
            (arith, remove_one-bytes rel p w, remove_one-snapshot rel p w, eq_iff rel p, distinct.0)
