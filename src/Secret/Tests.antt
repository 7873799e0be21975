-- ===== src/Secret/Tests.antt =====
-- Inputs with a placeholder.
use dotdevops.Prelude.{
  String, ◌≡◌, refl, ◌⊎◌, Option, none, some, [], ◌∷◌, ok, err, ◌==◌, if◌then◌else◌,
}
use dotdevops.Json.{Fields, str, int, end, field}
use dotdevops.Secret.{
  SecretError, env_provider, file_provider, of_input, not_in_environment, not_loaded, resolve,
  is_sentinel, key_from_sentinel, resolve_value, resolve_node_inputs, redact_value,
  redact_node_inputs, new_provider, unknown_provider, file_required,
}
use dotdevops.Secret.Resolution.{AllResolved, Unresolved, resolve_node_inputs_lem}
use dotdevops.Prelude.Text.{ends_with, between}

abbrev environment : String → Option String
environment key = if key == "DB" then some "hunter2" else none

abbrev inputs : Fields
inputs = field "password" (str "[SECRET:DB]") (field "port" (int 5432) end)

resolved_inputs :
    (resolve_node_inputs (env_provider environment) inputs
      ≡ ok (field "password" (str "hunter2") (field "port" (int 5432) end)))
    × (resolve_node_inputs (env_provider environment) (field "k" (str "[SECRET:X]") end)
        ≡ err (of_input "k" (not_in_environment "X")))
unfolding resolve_node_inputs resolve_value key_from_sentinel is_sentinel ends_with between resolve
resolved_inputs = (refl, refl)

-- A resolved secret is redacted by no list of keys.
resolved_stays :
    redact_node_inputs (field "password" (str "hunter2") end) ("password" ∷ [])
    ≡ field "password" (str "hunter2") end
unfolding redact_node_inputs redact_value is_sentinel ends_with
resolved_stays = refl

providers :
    (new_provider environment (λ p. none) "file" "" ≡ err file_required)
    × (new_provider environment (λ p. none) "vault" "" ≡ err (unknown_provider "vault"))
    × (new_provider environment (λ p. none) "" "" ≡ ok (env_provider environment))
    × (resolve (file_provider "s.json" none) "K" ≡ err not_loaded)
unfolding new_provider resolve
providers = (refl, refl, refl, refl)

resolve_node_inputs_lem_example :
    ((gs : Fields) × (resolve_node_inputs (env_provider environment) inputs ≡ ok gs)
      × AllResolved (env_provider environment) inputs gs)
    ⊎ ((k : String) × (e : SecretError) × (resolve_node_inputs (env_provider environment) inputs
          ≡ err (of_input k e))
        × Unresolved (env_provider environment) k inputs)
resolve_node_inputs_lem_example = resolve_node_inputs_lem (env_provider environment) inputs
