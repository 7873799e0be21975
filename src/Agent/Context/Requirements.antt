-- ===== src/Agent/Context/Requirements.antt =====
-- internal/agent/context/primitive_defaults.go
use dotdevops.Prelude.{
  ℕ, String, Bool, true, false, Option, none, some, List, [], ◌∷◌, get?, Result, ok, err, ltb,
  if◌then◌else◌,
}
use dotdevops.Prelude.Int.{ℤ, pos, negsuc}
use dotdevops.Agent.Context.{ExecutionContext}

-- PrimitiveContextRequirements
pub record Requirement : Type 0 where
  pub default_context_name : String
  pub minimum_trust_level : String
  pub requires_network : Bool
  pub requires_filesystem : Bool

abbrev pub needs : String → String → Bool → Bool → Requirement
needs context level network filesystem = record {
  default_context_name = context;
  minimum_trust_level = level;
  requires_network = network;
  requires_filesystem = filesystem;
}

-- PrimitiveDefaults
abbrev pub primitive_defaults : List (String × Requirement)
primitive_defaults =
    ("file.sync", needs "safe_user_space" "low" false true)
    ∷ ("process.exec", needs "safe_user_space" "low" false true)
    ∷ ("template.render", needs "safe_user_space" "low" false true)
    ∷ ("health.check", needs "safe_user_space" "low" true false)
    ∷ ("service.ensure", needs "default" "high" false true)
    ∷ ("package.install", needs "default" "high" true true)
    ∷ ("_exec", needs "default" "low" false true)
    ∷ ("_fs.write", needs "default" "low" false true)
    ∷ ("_fs.read", needs "default" "low" false true)
    ∷ ("_fs.mkdir", needs "default" "low" false true)
    ∷ ("_fs.delete", needs "default" "low" false true)
    ∷ ("_fs.chmod", needs "default" "medium" false true)
    ∷ ("_fs.chown", needs "default" "high" false true)
    ∷ ("_fs.exists", needs "default" "low" false true)
    ∷ ("_fs.stat", needs "default" "low" false true)
    ∷ ("_net.fetch", needs "default" "low" true true)
    ∷ []

pub data ResolveError : Type 0 where
  unknown_primitive : String → ResolveError
  context_not_found : String → ResolveError
  trust_too_low : String → String → ResolveError

abbrev pub levels : List (String × ℕ)
levels = ("low", 1) ∷ ("medium", 2) ∷ ("high", 3) ∷ []

abbrev pub compare_ranks : Option ℕ → Option ℕ → ℤ
compare_ranks (some a) (some b) = if ltb a b then negsuc 0 else if ltb b a then pos 1 else pos 0
compare_ranks _ _ = pos 0

-- compareTrustLevel
unfoldable pub compare_trust_level : String → String → ℤ
compare_trust_level a b = compare_ranks (get? a levels) (get? b levels)

abbrev pub is_negative : ℤ → Bool
is_negative (pos n) = false
is_negative (negsuc n) = true

-- the end of ResolveContext, for the requirement found
unfoldable pub meet :
    String → Requirement → Option ExecutionContext → Result ResolveError ExecutionContext
unfolding compare_trust_level
meet primitive req none = err (context_not_found req.default_context_name)
meet primitive req (some ctx) =
    if is_negative (compare_trust_level ctx.trust_level req.minimum_trust_level)
    then err (trust_too_low ctx.trust_level req.minimum_trust_level)
    else ok ctx

unfoldable pub resolve_for :
    String
    → List (String × ExecutionContext)
    → Option Requirement
    → Result ResolveError ExecutionContext
unfolding meet
resolve_for primitive contexts none = err (unknown_primitive primitive)
resolve_for primitive contexts (some req) =
    meet primitive req (get? req.default_context_name contexts)

-- ResolveContext
unfoldable pub resolve_context :
    String → List (String × ExecutionContext) → Result ResolveError ExecutionContext
unfolding resolve_for
resolve_context primitive contexts =
    resolve_for primitive contexts (get? primitive primitive_defaults)
