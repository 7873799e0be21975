-- ===== src/FileSync/Tests.antt =====
-- A source with a directory, a changed file and a new one, against a destination with an extra one.
use dotdevops.Prelude.{String, ◌≡◌, refl, ◌↔◌, true, false, not, ◌&&◌, [], ◌∷◌, mem, has, any_at}
use dotdevops.Prelude.Int.{pos, negsuc}
use dotdevops.Proto.{FileMeta, FileTree}
use dotdevops.FileSync.Diff.{append_uniq, visit_file, visit, visit_all, extras, diff, is_empty_set}
use dotdevops.FileSync.Diff.Lists.{
  marked, to_create, to_refresh, to_chmod, to_chown, to_mkdir, diff_lists,
}
use dotdevops.FileSync.Diff.Sync.{InSync, diff-empty_iff}

abbrev file : String → String → FileMeta
file path sum = record {
  path = path;
  size = pos 1;
  sha256 = sum;
  mode = 420;
  uid = pos 0;
  gid = pos 0;
  is_dir = false;
}

abbrev source : FileTree
source =
    ("etc", record (file "etc" "") { is_dir = true })
    ∷ ("etc/a", file "etc/a" "1")
    ∷ ("etc/b", file "etc/b" "2")
    ∷ []

abbrev target : FileTree
target = ("etc/a", file "etc/a" "0") ∷ ("etc/c", file "etc/c" "3") ∷ []

diff-source : diff source target 0 (negsuc 0) (negsuc 0) true ≡ record {
  create = "etc/b" ∷ [];
  to_update = "etc/a" ∷ [];
  delete = "etc/c" ∷ [];
  chmod = [];
  chown = [];
  mkdir = "etc" ∷ [];
}
unfolding diff extras visit_all visit visit_file append_uniq
diff-source = refl

diff_lists_example :
    (mem "etc/a" (diff source target 0 (negsuc 0) (negsuc 0) true).create
      ≡ marked target "etc/a" source to_create)
    × (mem "etc/a" (diff source target 0 (negsuc 0) (negsuc 0) true).to_update
        ≡ marked target "etc/a" source to_refresh)
    × (mem "etc/a" (diff source target 0 (negsuc 0) (negsuc 0) true).chmod
        ≡ marked target "etc/a" source (to_chmod 0))
    × (mem "etc/a" (diff source target 0 (negsuc 0) (negsuc 0) true).chown
        ≡ marked target "etc/a" source (to_chown (negsuc 0) (negsuc 0)))
    × (mem "etc/a" (diff source target 0 (negsuc 0) (negsuc 0) true).mkdir
        ≡ marked target "etc/a" source to_mkdir)
    × (mem "etc/a" (diff source target 0 (negsuc 0) (negsuc 0) true).delete
        ≡ (true && any_at "etc/a" (λ m. not m.is_dir && not (has "etc/a" source)) target))
diff_lists_example = diff_lists source target 0 (negsuc 0) (negsuc 0) true "etc/a"

diff-empty_iff_example :
    (is_empty_set (diff source target 0 (negsuc 0) (negsuc 0) true) ≡ true)
    ↔ InSync 0 (negsuc 0) (negsuc 0) source target true
diff-empty_iff_example = diff-empty_iff 0 (negsuc 0) (negsuc 0) source target true
