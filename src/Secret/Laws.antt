-- ===== src/Secret/Laws.antt =====
-- Placeholders and their keys, resolution and redaction, over all the fields of a node's inputs.
use Prim.Native.Nat.{◌-◌}
use Prim.Native.String.{len, ◌++◌}
use text.Mathlib.TextLemmas.{append_assoc}
use text.Mathlib.TextPositions.{starts_with-append, len-append}
use dotdevops.Prelude.{
  ◌+◌, String, ◌≡◌, ◌≢◌, refl, sym, ap, ◌∙◌, subst, ◌⊎◌, inl, inr, true, ◌&&◌, none, some, List,
  arith, ok, err, Bool-cases, Option-cases, Result-cases, if◌then◌else◌,
}
use dotdevops.Prelude.Text.{ends_with, between, ends_with-append, between-middle}
use dotdevops.Json.{Value, Fields, nil, bool, float, int, str, slice, object, end, field}
use dotdevops.Secret.{
  SecretError, Provider, resolve, sentinel_prefix, redacted, is_sentinel, key_from_sentinel,
  resolve_value, resolve_node_inputs, redact_value, redact_node_inputs, of_input,
}

-- The placeholder that the compiler writes for a secret.
abbrev pub placeholder : String → String
placeholder key = "[SECRET:" ++ (key ++ "]")

-- The key of a placeholder is the key it was written for.
pub key_from_sentinel-placeholder : (key : String) → key_from_sentinel (placeholder key) ≡ some key
unfolding key_from_sentinel is_sentinel
key_from_sentinel-placeholder key =
    let starts = starts_with-append sentinel_prefix (key ++ "]") in
    let ends : ends_with (placeholder key) "]" ≡ true =
      subst (λ w. ends_with w "]" ≡ true) (append_assoc sentinel_prefix key "]")
        (ends_with-append (sentinel_prefix ++ key) "]") in
    let size = len-append sentinel_prefix (key ++ "]") in
    let size' = len-append key "]" in
    let stop : len sentinel_prefix + len key ≡ len (placeholder key) - len "]" = omega arith in
    let body : between (placeholder key) (len sentinel_prefix) (len (placeholder key) - len "]")
        ≡ key =
      subst (λ j. between (placeholder key) (len sentinel_prefix) j ≡ key) stop
        (between-middle sentinel_prefix key "]") in
    ap
      (λ b.
        if b && ends_with (placeholder key) "]"
        then some
            (between (placeholder key) (len sentinel_prefix) (len (placeholder key) - len "]"))
        else none)
      starts
    ∙ ap
        (λ b.
          if b
          then some
              (between (placeholder key) (len sentinel_prefix) (len (placeholder key) - len "]"))
          else none)
        ends
    ∙ ap some body

-- The value is the string of a placeholder for `key`.
abbrev pub Placeholder : Value → String → Type 0
Placeholder v key = (s : String) × (v ≡ str s) × (key_from_sentinel s ≡ some key)

-- The value is no placeholder.
abbrev pub Ordinary : Value → Type 0
Ordinary (str s) = key_from_sentinel s ≡ none
Ordinary v = Unit

abbrev pub ValueOf : Provider → Value → Value → Type 0
ValueOf p v w =
    (Ordinary v × (w ≡ v))
    ⊎ ((key : String) × (secret : String) × Placeholder v key
        × (resolve p key ≡ ok secret)
        × (w ≡ str secret))

-- Field by field, under the same keys, the value of each input.
abbrev pub Values : Provider → Fields → Fields → Type 0
Values p end end = Unit
Values p (field k v fs) (field j w gs) = (k ≡ j) × ValueOf p v w × Values p fs gs
Values p _ _ = ⊥

-- Some input k is a placeholder that the provider refuses with e.
abbrev pub Refused : Provider → String → SecretError → Fields → Type 0
Refused p k e end = ⊥
Refused p k e (field j v fs) =
    ((j ≡ k) × ((key : String) × Placeholder v key × (resolve p key ≡ err e))) ⊎ Refused p k e fs

resolve_value_lem :
    (p : Provider) (k : String) (v : Value)
    → ((w : Value) × (resolve_value p k v ≡ ok w) × ValueOf p v w)
      ⊎ ((e : SecretError) × (key : String) × (resolve_value p k v ≡ err (of_input k e))
          × Placeholder v key
          × (resolve p key ≡ err e))
unfolding resolve_value
resolve_value_lem p k (str s) = elim (Option-cases (key_from_sentinel s)) [
  | inl n ↦ inl (str s, rw (n, resolve_value) refl, inl (n, refl))
  | inr (key, y) ↦ elim (Result-cases (resolve p key)) [
    | inl (x, r) ↦ inl (str x, rw (y, r, resolve_value) refl, inr (key, x, (s, refl, y), r, refl))
    | inr (e, r) ↦ inr (e, key, rw (y, r, resolve_value) refl, (s, refl, y), r)
  ]
]
resolve_value_lem p k nil = inl (nil, refl, inl (tt, refl))
resolve_value_lem p k (bool b) = inl (bool b, refl, inl (tt, refl))
resolve_value_lem p k (float n) = inl (float n, refl, inl (tt, refl))
resolve_value_lem p k (int n) = inl (int n, refl, inl (tt, refl))
resolve_value_lem p k (slice vs) = inl (slice vs, refl, inl (tt, refl))
resolve_value_lem p k (object fs) = inl (object fs, refl, inl (tt, refl))

-- Field by field, by the placeholders that the code finds.
pub resolve_node_inputs-Values :
    (p : Provider) (fs : Fields)
    → ((gs : Fields) × (resolve_node_inputs p fs ≡ ok gs) × Values p fs gs)
      ⊎ ((k : String) × (e : SecretError) × (resolve_node_inputs p fs ≡ err (of_input k e))
          × Refused p k e fs)
unfolding resolve_node_inputs
resolve_node_inputs-Values p end = inl (end, refl, tt)
resolve_node_inputs-Values p (field k v fs) = elim (resolve_value_lem p k v) [
  | inl (w, r, i) ↦ elim (resolve_node_inputs-Values p fs) [
    | inl (gs, rs, is) ↦ inl (field k w gs, rw (r, rs) refl, (refl, i, is))
    | inr (j, e, rs, refused) ↦ inr (j, e, rw (r, rs) refl, inr refused)
  ]
  | inr (e, key, r, at, refusal) ↦ inr (k, e, rw r refl, inl (refl, (key, at, refusal)))
]

-- The fields of redacted inputs: a placeholder becomes the word, any other value stays.
abbrev pub Redacts : Fields → Fields → Type 0
Redacts end end = Unit
Redacts (field k v fs) (field j w gs) =
    (k ≡ j)
    × ((Ordinary v × (w ≡ v)) ⊎ ((key : String) × Placeholder v key × (w ≡ str redacted)))
    × Redacts fs gs
Redacts _ _ = ⊥

abbrev pub AllOrdinary : Fields → Type 0
AllOrdinary end = Unit
AllOrdinary (field k v fs) = Ordinary v × AllOrdinary fs

-- No value is the placeholder that the compiler writes for some key.
abbrev pub NoPlaceholder : Fields → Type 0
NoPlaceholder end = Unit
NoPlaceholder (field k v fs) = ((key : String) → v ≢ str (placeholder key)) × NoPlaceholder fs

pub Ordinary-ne : (v : Value) (key : String) → Ordinary v → v ≢ str (placeholder key)
Ordinary-ne (str s) key h e =
    let same : s ≡ placeholder key = cc in
    cc (sym h ∙ ap key_from_sentinel same ∙ key_from_sentinel-placeholder key)
Ordinary-ne v key h e = cc

NoPlaceholder-of_ordinary : (fs : Fields) → AllOrdinary fs → NoPlaceholder fs
NoPlaceholder-of_ordinary end h = tt
NoPlaceholder-of_ordinary (field k v fs) h =
    (λ key. Ordinary-ne v key h.0, NoPlaceholder-of_ordinary fs h.1)

redacted_ordinary : key_from_sentinel redacted ≡ none
unfolding key_from_sentinel is_sentinel ends_with
redacted_ordinary = refl

redact_value_lem :
    (v : Value)
    → ((Ordinary v × (redact_value v ≡ v))
        ⊎ ((key : String) × Placeholder v key × (redact_value v ≡ str redacted)))
      × Ordinary (redact_value v)
unfolding redact_value key_from_sentinel
redact_value_lem (str s) = elim (Bool-cases (is_sentinel s)) [
  | inl y ↦ (
    inr (between s (len sentinel_prefix) (len s - len "]"), (s, refl, rw y refl), rw y refl),
    rw y redacted_ordinary,
  )
  | inr n ↦ (inl (rw n refl, rw n refl), rw n (rw n refl))
]
redact_value_lem nil = (inl (tt, refl), tt)
redact_value_lem (bool b) = (inl (tt, refl), tt)
redact_value_lem (float n) = (inl (tt, refl), tt)
redact_value_lem (int n) = (inl (tt, refl), tt)
redact_value_lem (slice vs) = (inl (tt, refl), tt)
redact_value_lem (object fs) = (inl (tt, refl), tt)

-- Redaction keeps the keys of the inputs and every value but the placeholders, and leaves no
-- placeholder, whichever keys it is told hold secrets.
pub redact_node_inputs_lem :
    (fs : Fields) (keys : List String)
    → Redacts fs (redact_node_inputs fs keys) × AllOrdinary (redact_node_inputs fs keys)
unfolding redact_node_inputs
redact_node_inputs_lem end keys = (tt, tt)
redact_node_inputs_lem (field k v fs) keys =
    let (is, free) = redact_value_lem v in
    let (rest, frees) = redact_node_inputs_lem fs keys in ((refl, is, rest), (free, frees))

pub redacted-NoPlaceholder :
    (fs : Fields) (keys : List String) → NoPlaceholder (redact_node_inputs fs keys)
redacted-NoPlaceholder fs keys =
    NoPlaceholder-of_ordinary (redact_node_inputs fs keys) (redact_node_inputs_lem fs keys).1
