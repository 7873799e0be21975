-- ===== src/FileSync/Diff/Lists.antt =====
-- Which paths stand on each list of the change set.
use dotdevops.Prelude.{
  ℕ, String, ◌≡◌, refl, sym, ap, subst, String-cases, Bool, true, false, not, ◌&&◌, ◌||◌, Option,
  none, some, List, [], ◌∷◌, ◌++◌, arith, ◌==◌, mem, get?, has, any_at, eq_iff, eq_refl, Bool-cases,
  inl, inr, if◌then◌else◌,
}
use dotdevops.Prelude.Int.{ℤ}
use dotdevops.Proto.{FileMeta, FileTree, ChangeSet}
use dotdevops.State.Store.{no_changes}
use dotdevops.FileSync.Diff.{
  append_uniq, content_differs, mode_differs, owner_differs, visit_file, visit, visit_all, extras,
  diff,
}

mem-snoc :
    (p : String) (xs : List String) (x : String) → mem p (xs ++ x ∷ []) ≡ (mem p xs || x == p)
mem-snoc p [] x = ground arith
mem-snoc p (y ∷ xs) x = ground (arith, mem-snoc p xs x)

mem-append_uniq :
    (p : String) (xs : List String) (x : String) → mem p (append_uniq xs x) ≡ (mem p xs || x == p)
unfolding append_uniq
mem-append_uniq p xs x = ground (arith, mem-snoc p xs x, eq_iff x p)

-- What is known of the destination's entry at a path, if there is one.
abbrev pub at_dest : (FileMeta → Bool) → Option FileMeta → Bool
at_dest test none = false
at_dest test (some meta) = test meta

has-get? : (p : String) (t : FileTree) → has p t ≡ at_dest (λ _. true) (get? p t)
has-get? p [] = refl
has-get? p ((k, m) ∷ t) = ground (arith, has-get? p t)

-- The tests on the source's entry `src` and the destination's at the same path, for each list.
abbrev pub to_create : FileMeta → Option FileMeta → Bool
to_create src o = not src.is_dir && not (at_dest (λ _. true) o)

abbrev pub to_refresh : FileMeta → Option FileMeta → Bool
to_refresh src o = not src.is_dir && at_dest (content_differs src) o

abbrev pub to_chmod : ℕ → FileMeta → Option FileMeta → Bool
to_chmod mode src o = not src.is_dir && at_dest (mode_differs mode) o

abbrev pub to_chown : ℤ → ℤ → FileMeta → Option FileMeta → Bool
to_chown uid gid src o = not src.is_dir && at_dest (owner_differs uid gid) o

abbrev pub to_mkdir : FileMeta → Option FileMeta → Bool
to_mkdir src o = src.is_dir && not (at_dest (λ _. true) o)

-- Some entry of the source at `p` passes a test, together with the destination's at `p`.
abbrev pub marked : FileTree → String → FileTree → (FileMeta → Option FileMeta → Bool) → Bool
marked dest p src t = any_at p (λ m. t m (get? p dest)) src

module _ (dest : FileTree) (mode : ℕ) (uid gid : ℤ) (p : String) where
  -- How the lists of `after` come from those of `before`, as far as `p` is concerned.
  record Grows (before after : ChangeSet) (test : (FileMeta → Option FileMeta → Bool) → Bool)
      : Type 0 where
    create : mem p after.create ≡ (mem p before.create || test to_create)
    to_update : mem p after.to_update ≡ (mem p before.to_update || test to_refresh)
    chmod : mem p after.chmod ≡ (mem p before.chmod || test (to_chmod mode))
    chown : mem p after.chown ≡ (mem p before.chown || test (to_chown uid gid))
    mkdir : mem p after.mkdir ≡ (mem p before.mkdir || test to_mkdir)
    delete : after.delete ≡ before.delete

  visit_file_lem :
      (cs : ChangeSet) (rel : String) (src : FileMeta) (o : Option FileMeta)
      → src.is_dir ≡ false
      → Grows cs (visit_file dest mode uid gid cs rel src o) (λ t. rel == p && t src o)
  unfolding visit_file
  visit_file_lem cs rel src none file = record {
    create = ground (arith, mem-snoc p cs.create rel);
    to_update = ground arith;
    chmod = ground arith;
    chown = ground arith;
    mkdir = ground arith;
    delete = refl;
  }
  visit_file_lem cs rel src (some meta) file = record {
    create = ground arith;
    to_update = ground (arith, mem-snoc p cs.to_update rel);
    chmod = ground (arith, mem-append_uniq p cs.chmod rel);
    chown = ground (arith, mem-append_uniq p cs.chown rel);
    mkdir = ground arith;
    delete = refl;
  }

  visit_lem :
      (cs : ChangeSet) (rel : String) (src : FileMeta)
      → Grows cs (visit dest mode uid gid cs rel src) (λ t. rel == p && t src (get? rel dest))
  unfolding visit
  visit_lem cs rel src = elim (Bool-cases src.is_dir) [
    | inr file ↦
        let is : visit_file dest mode uid gid cs rel src (get? rel dest)
            ≡ visit dest mode uid gid cs rel src =
          ground arith in
        subst (λ c. Grows cs c (λ t. rel == p && t src (get? rel dest))) is
          (visit_file_lem cs rel src (get? rel dest) file)
    | inl dir ↦ record {
      create = ground arith;
      to_update = ground arith;
      chmod = ground arith;
      chown = ground arith;
      mkdir = ground (arith, mem-snoc p cs.mkdir rel, has-get? rel dest);
      delete = ground arith;
    }
  ]

  same_path :
      (rel : String) (src : FileMeta) (t : FileMeta → Option FileMeta → Bool)
      → (rel == p && t src (get? rel dest)) ≡ (rel == p && t src (get? p dest))
  same_path rel src t = elim (String-cases rel p) [
    | inl e ↦ ap (λ k. rel == p && t src (get? k dest)) e
    | inr (n, _, _) ↦ rw n
  ]

  visit_all_lem :
      (src : FileTree) (cs : ChangeSet)
      → Grows cs (visit_all dest mode uid gid src cs) (marked dest p src)
  unfolding visit_all
  visit_all_lem [] cs = record {
    create = ground arith;
    to_update = ground arith;
    chmod = ground arith;
    chown = ground arith;
    mkdir = ground arith;
    delete = refl;
  }
  visit_all_lem ((rel, meta) ∷ src) cs =
      let one = visit_lem cs rel meta in
      let rest = visit_all_lem src (visit dest mode uid gid cs rel meta) in
      record {
        create = ground (arith, one.create, rest.create, same_path rel meta to_create);
        to_update = ground (arith, one.to_update, rest.to_update, same_path rel meta to_refresh);
        chmod = ground (arith, one.chmod, rest.chmod, same_path rel meta (to_chmod mode));
        chown = ground (arith, one.chown, rest.chown, same_path rel meta (to_chown uid gid));
        mkdir = ground (arith, one.mkdir, rest.mkdir, same_path rel meta to_mkdir);
        delete = ground (arith, one.delete, rest.delete);
      }

mem-extras :
    (p : String) (src dest : FileTree) (deleted : List String)
    → mem p (extras src dest deleted)
      ≡ (mem p deleted || any_at p (λ m. not m.is_dir && not (has p src)) dest)
unfolding extras
mem-extras p src [] deleted = ground arith
mem-extras p src ((rel, meta) ∷ dest) deleted = elim (String-cases rel p) [
  | inl e ↦
      subst
        (λ k.
          mem p (
            extras src dest
              (if meta.is_dir then deleted else if has k src then deleted else deleted ++ k ∷ []))
          ≡ (mem p deleted
              || ((k == p && (not meta.is_dir && not (has p src)))
                  || any_at p (λ m. not m.is_dir && not (has p src)) dest)))
        (sym e)
        (ground (
          arith,
          mem-extras p src dest
              (if meta.is_dir then deleted else if has p src then deleted else deleted ++ p ∷ []),
          mem-snoc p deleted p,
          eq_refl p,
        ))
  | inr (n, _, _) ↦ ground (
    arith,
    mem-extras p src dest
        (if meta.is_dir then deleted else if has rel src then deleted else deleted ++ rel ∷ []),
    mem-snoc p deleted rel,
  )
]

-- A path stands on a list of the change set exactly if the source's entry and the destination's
-- at that path call for it; on `delete`, exactly if extra files are to be deleted and the
-- destination has a file there of which the source has nothing.
pub diff_lists :
    (src dest : FileTree) (mode : ℕ) (uid gid : ℤ) (delete_extra : Bool) (p : String)
    → (mem p (diff src dest mode uid gid delete_extra).create ≡ marked dest p src to_create)
      × (mem p (diff src dest mode uid gid delete_extra).to_update ≡ marked dest p src to_refresh)
      × (mem p (diff src dest mode uid gid delete_extra).chmod ≡ marked dest p src (to_chmod mode))
      × (mem p (diff src dest mode uid gid delete_extra).chown
          ≡ marked dest p src (to_chown uid gid))
      × (mem p (diff src dest mode uid gid delete_extra).mkdir ≡ marked dest p src to_mkdir)
      × (mem p (diff src dest mode uid gid delete_extra).delete
          ≡ (delete_extra && any_at p (λ m. not m.is_dir && not (has p src)) dest))
unfolding diff
diff_lists src dest mode uid gid true p =
    let g = visit_all_lem dest mode uid gid p src no_changes in
    (
      g.create,
      g.to_update,
      g.chmod,
      g.chown,
      g.mkdir,
      ground (
        arith,
        mem-extras p src dest (visit_all dest mode uid gid src no_changes).delete,
        g.delete,
      ),
    )
diff_lists src dest mode uid gid false p =
    let g = visit_all_lem dest mode uid gid p src no_changes in
    (g.create, g.to_update, g.chmod, g.chown, g.mkdir, ground (arith, g.delete))
