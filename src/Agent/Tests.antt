-- ===== src/Agent/Tests.antt =====
-- A context for the files below /srv, and what it lets pass.
use text.Mathlib.Text.{starts_with}
use dotdevops.Prelude.{
  ℕ, ◌≤◌, String, ◌≡◌, refl, ◌↔◌, ◌⊎◌, Bool, true, false, Option, none, some, List, [], ◌∷◌, All,
  get?, ok,
}
use dotdevops.Prelude.Int.{pos}
use dotdevops.Prelude.Text.{contains}
use dotdevops.Agent.Context.{ExecutionContext}
use dotdevops.Agent.Context.Loader.{
  check_level, check_paths, name_and_level, other_checks, validate_context, load_all, load_contexts,
}
use dotdevops.Agent.Context.Requirements.{
  Requirement, primitive_defaults, levels, compare_trust_level, meet, resolve_for, resolve_context,
}
use dotdevops.Agent.Context.Executor.{
  op_write, names_executable, validate_command, validate_write_path, validate_operation,
  validate_file_path, build_command,
}
use dotdevops.Agent.Context.Access.{Some, Permitted, validate_command_lem, validate_file_path_sound}
use dotdevops.Agent.Context.Trust.{WellFormed, load_contexts-WellFormed, resolve_context-trusted}

abbrev context : ExecutionContext
context = record {
  name = "safe_user_space";
  purpose = "";
  trust_level = "low";
  identity = record { user = "app"; group = ""; groups = [] };
  privilege = record {
    allow_escalation = true;
    sudo_commands = "systemctl" ∷ [];
    no_password = true;
  };
  filesystem = record {
    read_only_paths = [];
    writable_paths = "/srv" ∷ [];
    denied_paths = "/srv/keys" ∷ [];
  };
  process = record {
    allowed_executables = "ls" ∷ [];
    denied_executables = "rm" ∷ [];
    environment = [];
    resource_limits = record {
      max_memory_mb = pos 0;
      max_cpu_percent = pos 0;
      max_processes = pos 0;
    };
  };
  network = record { allow_network = false; allowed_ports = []; scope = "none" };
  audit = record { level = "full"; log_stdout = true; log_stderr = true; log_env = false };
}

abbrev is_abs : String → Bool
is_abs path = starts_with path "/"

abbrev same_path : String → Option String
same_path path = some path

-- sudo runs a command that is not among the sudo_commands
any_command_escalates :
    build_command none context ("sh" ∷ "-c" ∷ []) ≡ "sudo" ∷ "-u" ∷ "app" ∷ "-n" ∷ "sh" ∷ "-c" ∷ []
unfolding build_command
any_command_escalates = refl

-- /srvers is no path below /srv
sibling_passes : validate_file_path same_path context.filesystem "/srvers/x" op_write ≡ ok tt
unfolding validate_file_path validate_operation validate_write_path
sibling_passes = refl

validate_command_lem_example : (validate_command context ("/bin/ls" ∷ []) ≡ ok tt) ↔ (
    All (λ d. contains "/bin/ls" d ≡ false) ("rm" ∷ [])
    × ((context.process.allowed_executables ≡ []) ⊎ Some (names_executable "/bin/ls") ("ls" ∷ [])))
validate_command_lem_example = validate_command_lem context "/bin/ls" []

validate_file_path_sound_example :
    (full : String) × (same_path "/srv/app" ≡ some full)
    × All (λ d. starts_with full d ≡ false) ("/srv/keys" ∷ [])
    × Permitted context.filesystem full op_write
unfolding validate_file_path validate_operation validate_write_path
validate_file_path_sound_example =
    validate_file_path_sound same_path context.filesystem "/srv/app" op_write refl

abbrev read : String → Option (List ExecutionContext)
read path = some (context ∷ [])

load_contexts-WellFormed_example : WellFormed is_abs (("safe_user_space", context) ∷ [])
unfolding load_contexts load_all validate_context name_and_level other_checks check_level
    check_paths
load_contexts-WellFormed_example =
    load_contexts-WellFormed is_abs read "contexts.yaml" (("safe_user_space", context) ∷ []) refl

context-WellFormed : WellFormed is_abs (("safe_user_space", context) ∷ [])
unfolding validate_context name_and_level other_checks check_level check_paths
context-WellFormed = (refl, refl, refl, tt)

resolve_context-trusted_example :
    (req : Requirement) × (required : ℕ) × (trusted : ℕ) × (get? "file.sync" primitive_defaults
      ≡ some req)
    × (get? req.default_context_name (("safe_user_space", context) ∷ []) ≡ some context)
    × (get? req.minimum_trust_level levels ≡ some required)
    × (get? context.trust_level levels ≡ some trusted)
    × (required ≤ trusted)
unfolding resolve_context resolve_for meet compare_trust_level
resolve_context-trusted_example =
    resolve_context-trusted is_abs (("safe_user_space", context) ∷ []) "file.sync" context
      context-WellFormed refl
