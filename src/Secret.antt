-- ===== src/Secret.antt =====
-- internal/secret/secret.go: the placeholders of secrets in a node's inputs, and their values. The
-- environment and the parsed secrets file are parameters: what they hold under a key.
pub mod Laws
pub mod Resolution
pub mod Tests
use Prim.Native.Nat.{◌-◌}
use Prim.Native.String.{len, ◌++◌}
use text.Mathlib.Text.{starts_with}
use dotdevops.Prelude.{
  String, Bool, true, false, ◌&&◌, ◌||◌, ◌==◌, Option, none, some, if◌then◌else◌, Result, ok, err,
  ◌>>=◌, List, get?,
}
use dotdevops.Prelude.Text.{ends_with, between}
use dotdevops.Json.{Value, Fields, str, end, field}

pub data SecretError : Type 0 where
  not_in_environment : String → SecretError
  not_loaded : SecretError
  not_in_file : String → SecretError
  file_required : SecretError
  bad_file : SecretError
  unknown_provider : String → SecretError
  of_input : String → SecretError → SecretError

-- The two kinds of Provider. A FileProvider's values are `none` before Load.
pub data Provider : Type 0 where
  env_provider : (String → Option String) → Provider
  file_provider : String → Option (List (String × String)) → Provider

-- Resolve
unfoldable pub resolve : Provider → String → Result SecretError String
resolve (env_provider environment) key = elim (environment key) [
  | none ↦ err (not_in_environment key)
  | some v ↦ ok v
]
resolve (file_provider path none) key = err not_loaded
resolve (file_provider path (some values)) key = elim (get? key values) [
  | none ↦ err (not_in_file key)
  | some v ↦ ok v
]

-- Name
pub name : Provider → String
name (env_provider environment) = "env"
name (file_provider path values) = "file:" ++ path

abbrev pub sentinel_prefix : String
sentinel_prefix = "[SECRET:"

abbrev pub redacted : String
redacted = "[REDACTED]"

-- IsSentinel
unfoldable pub is_sentinel : String → Bool
is_sentinel v = starts_with v sentinel_prefix && ends_with v "]"

-- KeyFromSentinel
unfoldable pub key_from_sentinel : String → Option String
key_from_sentinel v =
    if is_sentinel v then some (between v (len sentinel_prefix) (len v - len "]")) else none

-- the body of the loop of ResolveNodeInputs
unfoldable pub resolve_value : Provider → String → Value → Result SecretError Value
resolve_value p k (str s) = elim (key_from_sentinel s) [
  | none ↦ ok (str s)
  | some key ↦ elim (resolve p key) [ ok v ↦ ok (str v) | err e ↦ err (of_input k e) ]
]
resolve_value p k v = ok v

-- ResolveNodeInputs
unfoldable pub resolve_node_inputs : Provider → Fields → Result SecretError Fields
resolve_node_inputs p end = ok end
resolve_node_inputs p (field k v fs) =
    resolve_value p k v >>= λ w. resolve_node_inputs p fs >>= λ ws. ok (field k w ws)

unfoldable pub redact_value : Value → Value
redact_value (str s) = if is_sentinel s then str redacted else str s
redact_value v = v

-- RedactNodeInputs; the list of keys is not read
unfoldable pub redact_node_inputs : Fields → List String → Fields
redact_node_inputs end keys = end
redact_node_inputs (field k v fs) keys = field k (redact_value v) (redact_node_inputs fs keys)

-- NewProvider; `load` is what Load finds in the file, none if it cannot be read or parsed
unfoldable pub new_provider :
    (String → Option String)
    → (String → Option (List (String × String)))
    → String
    → String
    → Result SecretError Provider
new_provider environment load provider_name secret_file =
    if provider_name == "" || provider_name == "env"
    then ok (env_provider environment)
    else if provider_name == "file"
    then (if secret_file == "" then err file_required else elim (load secret_file) [
      | none ↦ err bad_file
      | some values ↦ ok (file_provider secret_file (some values))
    ])
    else err (unknown_provider provider_name)
