-- ===== src/FileSync/Diff.antt =====
-- internal/primitive/filesync/diff.go
pub mod Lists
pub mod Sync
use dotdevops.Prelude.{
  ℕ, String, Bool, true, false, not, ◌&&◌, ◌||◌, Option, none, some, List, [], ◌∷◌, ◌++◌, ◌==◌, mem,
  is_empty, get?, has, nat_beq, if◌then◌else◌,
}
use dotdevops.Prelude.Int.{ℤ, int_eq, is_nonneg}
use dotdevops.Proto.{FileMeta, FileTree, ChangeSet}
use dotdevops.State.Store.{no_changes}

unfoldable pub append_uniq : List String → String → List String
append_uniq slice s = if mem s slice then slice else slice ++ s ∷ []

-- srcMeta.SHA256 != destMeta.SHA256 || srcMeta.Size != destMeta.Size
abbrev pub content_differs : FileMeta → FileMeta → Bool
content_differs src dest = not (src.sha256 == dest.sha256) || not (int_eq src.size dest.size)

-- desiredMode != 0 and the destination has another mode
abbrev pub mode_differs : ℕ → FileMeta → Bool
mode_differs mode dest = not (nat_beq mode 0) && not (nat_beq dest.mode mode)

-- desiredUID >= 0 && desiredGID >= 0 and the destination has another owner
abbrev pub owner_differs : ℤ → ℤ → FileMeta → Bool
owner_differs uid gid dest =
    (is_nonneg uid && is_nonneg gid) && (not (int_eq dest.uid uid) || not (int_eq dest.gid gid))

module _ (dest : FileTree) (mode : ℕ) (uid gid : ℤ) where
  -- the part of the loop body behind the lookup of a file in the destination
  unfoldable pub visit_file : ChangeSet → String → FileMeta → Option FileMeta → ChangeSet
  unfolding append_uniq
  visit_file cs rel src none = record cs { create = cs.create ++ rel ∷ [] }
  visit_file cs rel src (some meta) = record cs {
    to_update = if content_differs src meta then cs.to_update ++ rel ∷ [] else cs.to_update;
    chmod = if mode_differs mode meta then append_uniq cs.chmod rel else cs.chmod;
    chown = if owner_differs uid gid meta then append_uniq cs.chown rel else cs.chown;
  }

  -- the body of the loop over the source tree
  unfoldable pub visit : ChangeSet → String → FileMeta → ChangeSet
  unfolding visit_file
  visit cs rel src =
      if src.is_dir
      then (if has rel dest then cs else record cs { mkdir = cs.mkdir ++ rel ∷ [] })
      else visit_file cs rel src (get? rel dest)

  unfoldable pub visit_all : FileTree → ChangeSet → ChangeSet
  unfolding visit
  visit_all [] cs = cs
  visit_all ((rel, meta) ∷ src) cs = visit_all src (visit cs rel meta)

-- the loop over the destination tree
unfoldable pub extras : FileTree → FileTree → List String → List String
extras src [] deleted = deleted
extras src ((rel, meta) ∷ dest) deleted =
    extras src dest
      (if meta.is_dir then deleted else if has rel src then deleted else deleted ++ rel ∷ [])

unfoldable pub diff : FileTree → FileTree → ℕ → ℤ → ℤ → Bool → ChangeSet
unfolding visit_all extras
diff src dest mode uid gid delete_extra =
    let cs = visit_all dest mode uid gid src no_changes in
    if delete_extra then record cs { delete = extras src dest cs.delete } else cs

-- IsEmpty
unfoldable pub is_empty_set : ChangeSet → Bool
is_empty_set cs =
    is_empty cs.create
    && is_empty cs.to_update
    && is_empty cs.delete
    && is_empty cs.chmod
    && is_empty cs.chown
    && is_empty cs.mkdir
