-- ===== src/Agent/Context/Executor.antt =====
-- internal/agent/context/executor.go: what a context allows, and the command that is run for it.
-- filepath.Abs and the name of the current user are parameters; the run itself and the audit
-- entries are not modelled.
use Prim.Native.String.{◌++◌}
use text.Mathlib.Text.{starts_with}
use dotdevops.Prelude.{
  String, Bool, true, false, not, ◌&&◌, ◌||◌, ◌==◌, Option, none, some, List, [], ◌∷◌, is_empty,
  Result, ok, err, ◌>>=◌, if◌then◌else◌,
}
use dotdevops.Prelude as Lists
use dotdevops.Prelude.Text.{ends_with, contains}
use dotdevops.Agent.Context.{ExecutionContext, FilesystemConfig}

pub data AccessError : Type 0 where
  empty_command : AccessError
  executable_denied executable_not_allowed : String → AccessError
  unresolved_path path_denied not_readable not_writable : String → AccessError
  no_writable_paths : AccessError

abbrev pub Access : Type 0
Access = Result AccessError Unit

-- Some element satisfies the test of the loop.
abbrev pub any : (String → Bool) → List String → Bool
any p [] = false
any p (x ∷ xs) = p x || any p xs

-- executable == allowedExec || strings.HasSuffix(executable, "/"+allowedExec)
abbrev pub names_executable : String → String → Bool
names_executable executable allowed = executable == allowed || ends_with executable ("/" ++ allowed)

-- validateCommand
unfoldable pub validate_command : ExecutionContext → List String → Access
validate_command ctx [] = err empty_command
validate_command ctx (executable ∷ args) =
    if any (contains executable) ctx.process.denied_executables
    then err (executable_denied executable)
    else if is_empty ctx.process.allowed_executables
    then ok tt
    else if any (names_executable executable) ctx.process.allowed_executables
    then ok tt
    else err (executable_not_allowed executable)

pub data FileOperation : Type 0 where
  op_read op_write : FileOperation

-- validateReadPath
unfoldable pub validate_read_path : FilesystemConfig → String → Access
validate_read_path fs path =
    if is_empty fs.read_only_paths && is_empty fs.writable_paths
    then ok tt
    else if any (starts_with path) fs.read_only_paths
    then ok tt
    else if any (starts_with path) fs.writable_paths
    then ok tt
    else err (not_readable path)

-- validateWritePath
unfoldable pub validate_write_path : FilesystemConfig → String → Access
validate_write_path fs path =
    if is_empty fs.writable_paths && is_empty fs.read_only_paths
    then ok tt
    else if is_empty fs.writable_paths
    then err no_writable_paths
    else if any (starts_with path) fs.writable_paths
    then ok tt
    else err (not_writable path)

unfoldable pub validate_operation : FilesystemConfig → String → FileOperation → Access
unfolding validate_read_path validate_write_path
validate_operation fs path op_read = validate_read_path fs path
validate_operation fs path op_write = validate_write_path fs path

-- ValidateFilePath; `abs` is filepath.Abs
unfoldable pub validate_file_path :
    (String → Option String) → FilesystemConfig → String → FileOperation → Access
unfolding validate_operation
validate_file_path abs fs path op = elim (abs path) [
  | none ↦ err (unresolved_path path)
  | some full ↦
      if any (starts_with full) fs.denied_paths
      then err (path_denied path)
      else validate_operation fs full op
]

-- buildCommand: the arguments that are run; `current` is the current user's name, if it is found
unfoldable pub build_command : Option String → ExecutionContext → List String → List String
build_command current ctx cmd =
    let user = ctx.identity.user in
    if user == "" || user == "current"
    then cmd
    else if is_user user current
    then cmd
    else if ctx.privilege.allow_escalation
    then Lists.◌++◌ ("sudo" ∷ "-u" ∷ user ∷ (if ctx.privilege.no_password then "-n" ∷ [] else []))
        cmd
    else "runuser" ∷ "-u" ∷ user ∷ "--" ∷ cmd
  where
    is_user : String → Option String → Bool
    is_user user none = false
    is_user user (some name) = name == user
