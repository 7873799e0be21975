-- ===== src/Secret/Resolution.antt =====
-- The resolution of placeholders, by the secrets that a provider gives.
use text.Mathlib.Text.{starts_with}
use dotdevops.Prelude.{
  String, ◌≡◌, sym, ap, ◌∙◌, subst, ◌⊎◌, inl, inr, false, ◌&&◌, none, some, arith, ok, err, get?,
  Option-cases,
}
use dotdevops.Prelude.Text.{ends_with}
use dotdevops.Json.{Value, Fields, str, end, field}
use dotdevops.Secret.{
  SecretError, Provider, env_provider, file_provider, resolve, is_sentinel, key_from_sentinel,
  resolve_node_inputs, of_input,
}
use dotdevops.Secret.Laws.{
  placeholder, key_from_sentinel-placeholder, Placeholder, Ordinary, Ordinary-ne, ValueOf, Values,
  Refused, resolve_node_inputs-Values,
}

-- What a provider gives for a key: a variable of the environment, or an entry of the loaded file.
abbrev pub Gives : Provider → String → String → Type 0
Gives (env_provider environment) key secret = environment key ≡ some secret
Gives (file_provider path none) key secret = ⊥
Gives (file_provider path (some values)) key secret = get? key values ≡ some secret

resolve-Gives :
    (p : Provider) (key : String) {secret : String} → resolve p key ≡ ok secret → Gives p key secret
unfolding resolve
resolve-Gives (env_provider environment) key h = elim (Option-cases (environment key)) [
  | inl e ↦ absurd (cc (rw e at h))
  | inr (s, e) ↦ rw e (cc (rw e at h))
]
resolve-Gives (file_provider path none) key h = cc
resolve-Gives (file_provider path (some values)) key h = elim (Option-cases (get? key values)) [
  | inl e ↦ absurd (cc (rw (e, resolve) at h))
  | inr (s, e) ↦ rw e (cc (rw (e, resolve) at h))
]

refused-not_given :
    (p : Provider) (key : String) {e : SecretError}
    → resolve p key ≡ err e
    → (secret : String) → ¬ Gives p key secret
unfolding resolve
refused-not_given (env_provider environment) key h secret g = cc (rw g at h)
refused-not_given (file_provider path none) key h secret g = absurd g
refused-not_given (file_provider path (some values)) key h secret g = cc (rw (g, resolve) at h)

-- A text that does not start and end as a placeholder, and any value that is no text.
abbrev pub Plain : Value → Type 0
Plain (str s) = (starts_with s "[SECRET:" && ends_with s "]") ≡ false
Plain v = Unit

-- The placeholder of a key becomes the secret, and a plain value stays.
abbrev pub Resolved : Provider → Value → Value → Type 0
Resolved p v w =
    ((key : String)
      → v ≡ str (placeholder key)
      → (secret : String) × Gives p key secret × (w ≡ str secret))
    × (Plain v → w ≡ v)

abbrev pub AllResolved : Provider → Fields → Fields → Type 0
AllResolved p end end = Unit
AllResolved p (field k v fs) (field j w gs) = (k ≡ j) × Resolved p v w × AllResolved p fs gs
AllResolved p _ _ = ⊥

-- The input k is not plain, and the provider has no secret for it.
abbrev pub Unresolved : Provider → String → Fields → Type 0
Unresolved p k end = ⊥
Unresolved p k (field j v fs) =
    ((j ≡ k)
      × (¬ Plain v)
      × ((key : String) → v ≡ str (placeholder key) → (secret : String) → ¬ Gives p key secret))
    ⊎ Unresolved p k fs

same_key :
    (v : Value) (key other : String) → Placeholder v key → v ≡ str (placeholder other) → key ≡ other
same_key v key other (s, is, found) e =
    let same : s ≡ placeholder other = cc (sym is ∙ e) in
    cc (sym found ∙ ap key_from_sentinel same ∙ key_from_sentinel-placeholder other)

Placeholder-not-Plain : (v : Value) (key : String) → Placeholder v key → ¬ Plain v
unfolding key_from_sentinel is_sentinel
Placeholder-not-Plain v key (s, is, found) plain =
    let off : is_sentinel s ≡ false = subst Plain is plain in ground arith

Plain-of_Ordinary : (v : Value) → Ordinary v → Plain v
unfolding key_from_sentinel is_sentinel
Plain-of_Ordinary (str s) h = ground arith
Plain-of_Ordinary v h = tt

ValueOf-Resolved : (p : Provider) (v w : Value) → ValueOf p v w → Resolved p v w
ValueOf-Resolved p v w (inl (plain, same)) =
    (λ key e. absurd (Ordinary-ne v key plain e), λ _. same)
ValueOf-Resolved p v w (inr (key, secret, at, got, is)) = (
  λ other e. (
    secret,
    subst (λ k. Gives p k secret) (same_key v key other at e) (resolve-Gives p key got),
    is,
  ),
  λ plain. absurd (Placeholder-not-Plain v key at plain),
)

Values-AllResolved : (p : Provider) (fs gs : Fields) → Values p fs gs → AllResolved p fs gs
Values-AllResolved p end end h = tt
Values-AllResolved p (field k v fs) (field j w gs) h =
    (h.0, ValueOf-Resolved p v w h.1, Values-AllResolved p fs gs h.2)
Values-AllResolved p fs gs h = absurd h

Refused-Unresolved :
    (p : Provider) (k : String) (e : SecretError) (fs : Fields)
    → Refused p k e fs
    → Unresolved p k fs
Refused-Unresolved p k e end h = absurd h
Refused-Unresolved p k e (field j v fs) (inl (is, (key, at, no_secret))) = inl (
  is,
  Placeholder-not-Plain v key at,
  λ other same secret g.
      refused-not_given p key no_secret secret
        (subst (λ x. Gives p x secret) (sym (same_key v key other at same)) g),
)
Refused-Unresolved p k e (field j v fs) (inr h) = inr (Refused-Unresolved p k e fs h)

-- Resolution returns inputs under the same keys, in which the placeholder of a key has become the
-- provider's secret for that key, and a text that does not start and end as a placeholder or a
-- value that is no text, lists and maps with what they hold included, is as it was. Or it returns an
-- error with the name of an input that is not of that kind and has no secret.
pub resolve_node_inputs_lem :
    (p : Provider) (fs : Fields)
    → ((gs : Fields) × (resolve_node_inputs p fs ≡ ok gs) × AllResolved p fs gs)
      ⊎ ((k : String) × (e : SecretError) × (resolve_node_inputs p fs ≡ err (of_input k e))
          × Unresolved p k fs)
resolve_node_inputs_lem p fs = elim (resolve_node_inputs-Values p fs) [
  | inl (gs, r, is) ↦ inl (gs, r, Values-AllResolved p fs gs is)
  | inr (k, e, r, refused) ↦ inr (k, e, r, Refused-Unresolved p k e fs refused)
]
