-- ===== src/FileSync/Disk.antt =====
-- What file.sync on the agent does to a host: the regular files and the directories below the
-- destination, by their relative paths, which are taken to be clean, and the snapshot directories
-- beside it; the file .devopsctl_last_snap holds the name of one. Which calls of the operating system fail is a parameter.
use dotdevops.Prelude.{
  ℕ, String, Bool, true, false, ◌&&◌, ◌||◌, ◌≡◌, refl, arith, nat_beq, Option, none, some, List, [],
  ◌∷◌, mem, Map, update,
}
use dotdevops.Prelude.Int.{ℤ}

abbrev pub Bytes : Type 0
Bytes = List ℕ

pub record File : Type 0 where
  pub bytes : Bytes
  pub mode : ℕ
  pub uid : ℤ
  pub gid : ℤ

-- The files in a snapshot directory, the newest copy of each first.
abbrev pub Snapshot : Type 0
Snapshot = List (String × Bytes)

-- `snapshots` are the snapshot directories, by their names.
pub record Disk : Type 0 where
  pub files : Map (Option File)
  pub dirs : Map Bool
  pub snapshots : Bytes → Snapshot

abbrev pub bytes_eq : Bytes → Bytes → Bool
bytes_eq [] [] = true
bytes_eq (x ∷ xs) (y ∷ ys) = nat_beq x y && bytes_eq xs ys
bytes_eq _ _ = false

pub bytes_eq_refl : (xs : Bytes) → bytes_eq xs xs ≡ true
bytes_eq_refl [] = refl
bytes_eq_refl (x ∷ xs) = ground (arith, bytes_eq_refl xs)

abbrev pub marker_path : String
marker_path = ".devopsctl_last_snap"

abbrev pub bytes_of : Option File → Option Bytes
bytes_of none = none
bytes_of (some f) = some f.bytes

-- `parents` are the directories above a path, and `sort` is sort.Strings. A new file has a mode that
-- depends on its maker: os.CreateTemp and os.WriteFile in Apply, os.Create in Rollback; its owner is
-- that of the process. The others tell, for each path, whether a step on it fails.
pub record Host : Type 0 where
  pub parents : String → List String
  pub sort : List String → List String
  pub temp_mode : ℕ
  pub marker_mode : ℕ
  pub new_mode : ℕ
  pub user : ℤ
  pub group : ℤ
  pub mkdir_fails : String → Bool
  pub temp_fails : String → Bool
  pub write_fails : String → Bool
  pub rename_fails : String → Bool
  pub snapshot_fails : String → Bool
  pub chmod_fails : String → Bool
  pub chown_fails : String → Bool
  pub remove_fails : String → Bool
  pub restore_fails : String → Bool

abbrev pub made : Host → ℕ → Bytes → File
made host mode bytes = record { bytes = bytes; mode = mode; uid = host.user; gid = host.group }

abbrev pub make_dirs : List String → Map Bool → Map Bool
make_dirs ps dirs p = mem p ps || dirs p

abbrev pub put_file : String → Option File → Disk → Disk
put_file p f d = record d { files = update d.files p f }

abbrev pub add_dirs : List String → Disk → Disk
add_dirs ps d = record d { dirs = make_dirs ps d.dirs }
