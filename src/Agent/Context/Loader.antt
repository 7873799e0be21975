-- ===== src/Agent/Context/Loader.antt =====
-- internal/agent/context/loader.go. `is_abs` is filepath.IsAbs; the file is what the YAML decoder
-- makes of it, none where it cannot be read or parsed.
use dotdevops.Prelude.{
  String, Bool, not, ◌&&◌, ◌==◌, Option, none, some, List, [], ◌∷◌, is_empty, mem, has, Result, ok,
  err, ◌>>=◌, if◌then◌else◌,
}
use dotdevops.Agent.Context.{ExecutionContext}

pub data ContextError : Type 0 where
  name_required trust_level_required user_required sudo_commands_required audit_level_required :
      ContextError
  invalid_trust_level invalid_audit_level invalid_scope : String → ContextError
  relative_path : String → ContextError
  path_empty unreadable no_contexts : ContextError
  invalid_context : String → ContextError → ContextError
  duplicate_name : String → ContextError

abbrev pub trust_levels : List String
trust_levels = "low" ∷ "medium" ∷ "high" ∷ []

abbrev pub audit_levels : List String
audit_levels = "minimal" ∷ "standard" ∷ "full" ∷ []

abbrev pub scopes : List String
scopes = "none" ∷ "internal" ∷ "full" ∷ []

-- the first error that a check reports, `ok` if it reports none
abbrev pub Check : Type 0
Check = Result ContextError Unit

-- the switch on one of the enumerated strings
unfoldable pub check_level : String → List String → ContextError → (String → ContextError) → Check
check_level s valid missing invalid =
    if mem s valid then ok tt else if s == "" then err missing else err (invalid s)

-- the loop over one list of paths
unfoldable pub check_paths : (String → Bool) → List String → Check
check_paths is_abs [] = ok tt
check_paths is_abs (p ∷ ps) = if is_abs p then check_paths is_abs ps else err (relative_path p)

abbrev pub require : Bool → ContextError → Check
require b e = if b then ok tt else err e

-- the checks of the name and the trust level
unfoldable pub name_and_level : ExecutionContext → Check
unfolding check_level
name_and_level ctx =
    require (not (ctx.name == "")) name_required
    >>= (λ _. check_level ctx.trust_level trust_levels trust_level_required invalid_trust_level)

-- the checks behind them
unfoldable pub other_checks : (String → Bool) → ExecutionContext → Check
unfolding check_level check_paths
other_checks is_abs ctx =
    require (not (ctx.identity.user == "")) user_required
    >>= (λ _.
        require (not (ctx.privilege.allow_escalation && is_empty ctx.privilege.sudo_commands))
          sudo_commands_required)
    >>= (λ _. check_paths is_abs ctx.filesystem.read_only_paths)
    >>= (λ _. check_paths is_abs ctx.filesystem.writable_paths)
    >>= (λ _. check_paths is_abs ctx.filesystem.denied_paths)
    >>= (λ _. check_level ctx.audit.level audit_levels audit_level_required invalid_audit_level)
    >>= (λ _.
        if ctx.network.scope == ""
        then ok tt
        else require (mem ctx.network.scope scopes) (invalid_scope ctx.network.scope))

-- ValidateContext
unfoldable pub validate_context : (String → Bool) → ExecutionContext → Check
unfolding name_and_level other_checks
validate_context is_abs ctx = name_and_level ctx >>= λ _. other_checks is_abs ctx

-- the loop of LoadContexts; `contexts` is the map, the last entry first
unfoldable pub load_all :
    (String → Bool)
    → List ExecutionContext
    → List (String × ExecutionContext)
    → Result ContextError (List (String × ExecutionContext))
unfolding validate_context
load_all is_abs [] contexts = ok contexts
load_all is_abs (ctx ∷ rest) contexts =
    let others = load_all is_abs rest ((ctx.name, ctx) ∷ contexts) in
    elim (validate_context is_abs ctx) [
      | err e ↦ err (invalid_context ctx.name e)
      | ok u ↦ if has ctx.name contexts then err (duplicate_name ctx.name) else others
    ]

-- LoadContexts
unfoldable pub load_contexts :
    (String → Bool)
    → (String → Option (List ExecutionContext))
    → String
    → Result ContextError (List (String × ExecutionContext))
unfolding load_all
load_contexts is_abs read path = if path == "" then err path_empty else elim (read path) [
  | none ↦ err unreadable
  | some [] ↦ err no_contexts
  | some (c ∷ cs) ↦ load_all is_abs (c ∷ cs) []
]
