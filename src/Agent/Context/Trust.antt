-- ===== src/Agent/Context/Trust.antt =====
-- The contexts that are loaded, and the one that a primitive is resolved to.
use dotdevops.Prelude.{
  ok_inj, bind-eq-ok, ℕ, ◌≤◌, String, ◌≡◌, refl, subst, inl, inr, Bool, true, false, not, ◌&&◌,
  ◌==◌, Option, some, List, [], ◌∷◌, arith, mem, get?, has, Bool-cases, Option-cases, Result-cases,
  ok,
}
use dotdevops.Agent.Context.{ExecutionContext}
use dotdevops.Agent.Context.Loader.{
  validate_context, load_all, load_contexts, trust_levels, check_level, name_and_level,
  other_checks, require, name_required, trust_level_required, invalid_trust_level,
}
use dotdevops.Agent.Context.Requirements.{
  Requirement, primitive_defaults, levels, compare_trust_level, compare_ranks, is_negative, meet,
  resolve_for, resolve_context,
}

-- Every entry is a valid context under its own name, and no name comes twice.
abbrev pub WellFormed : (String → Bool) → List (String × ExecutionContext) → Type 0
WellFormed is_abs [] = Unit
WellFormed is_abs ((name, ctx) ∷ contexts) =
    (name ≡ ctx.name)
    × (validate_context is_abs ctx ≡ ok tt)
    × (has name contexts ≡ false)
    × WellFormed is_abs contexts

load_all-WellFormed :
    (is_abs : String → Bool) (file : List ExecutionContext)
    (contexts loaded : List (String × ExecutionContext))
    → WellFormed is_abs contexts
    → load_all is_abs file contexts ≡ ok loaded
    → WellFormed is_abs loaded
unfolding load_all
load_all-WellFormed is_abs [] contexts loaded w h = subst (WellFormed is_abs) (ok_inj h) w
load_all-WellFormed is_abs (ctx ∷ file) contexts loaded w h =
    elim (Result-cases (validate_context is_abs ctx)) [
      | inr (e, r) ↦ let wrong = rw (r, load_all) at h in cc
      | inl (tt, r) ↦ elim (Bool-cases (has ctx.name contexts)) [
        | inl y ↦ let wrong = rw (r, y, load_all) at h in cc
        | inr n ↦
            load_all-WellFormed is_abs file ((ctx.name, ctx) ∷ contexts) loaded (refl, r, n, w)
              (rw (r, n, load_all) at h)
      ]
    ]

-- LoadContexts returns valid contexts, each under its own name, and no name twice.
pub load_contexts-WellFormed :
    (is_abs : String → Bool) (read : String → Option (List ExecutionContext)) (path : String)
    (loaded : List (String × ExecutionContext))
    → load_contexts is_abs read path ≡ ok loaded
    → WellFormed is_abs loaded
unfolding load_contexts
load_contexts-WellFormed is_abs read path loaded h = elim (Bool-cases (path == "")) [
  | inl y ↦ let wrong = rw (y, load_contexts) at h in cc
  | inr n ↦ elim (Option-cases (read path)) [
    | inl m ↦ let wrong = rw (n, m, load_contexts) at h in cc
    | inr ([], r) ↦ let wrong = rw (n, r, load_contexts) at h in cc
    | inr (c ∷ cs, r) ↦
        load_all-WellFormed is_abs (c ∷ cs) [] loaded tt (rw (n, r, load_contexts) at h)
  ]
]

valid_of_get? :
    (is_abs : String → Bool) (k : String) (contexts : List (String × ExecutionContext))
    (ctx : ExecutionContext)
    → WellFormed is_abs contexts
    → get? k contexts ≡ some ctx
    → validate_context is_abs ctx ≡ ok tt
valid_of_get? is_abs k [] ctx w h = cc
valid_of_get? is_abs k ((j, c) ∷ contexts) ctx w h = elim (Bool-cases (j == k)) [
  | inl y ↦ let is : c ≡ ctx = ground arith in subst (λ x. validate_context is_abs x ≡ ok tt) is w.1
  | inr n ↦ valid_of_get? is_abs k contexts ctx w.3 (ground arith)
]

level_of_check :
    (t : String)
    → check_level t trust_levels trust_level_required invalid_trust_level ≡ ok tt
    → mem t trust_levels ≡ true
unfolding check_level
level_of_check t h = elim (Bool-cases (mem t trust_levels)) [
  | inl y ↦ y
  | inr n ↦ elim (Bool-cases (t == "")) [
    | inl e ↦ let wrong = rw (n, e, check_level) at h in cc
    | inr e ↦ let wrong = rw (n, e, check_level) at h in cc
  ]
]

level_of_valid :
    (is_abs : String → Bool) (ctx : ExecutionContext)
    → validate_context is_abs ctx ≡ ok tt
    → mem ctx.trust_level trust_levels ≡ true
unfolding validate_context name_and_level
level_of_valid is_abs ctx h =
    let (a, first, rest) = bind-eq-ok (name_and_level ctx) (λ _. other_checks is_abs ctx) h in
    let (b, named, leveled) =
      bind-eq-ok (require (not (ctx.name == "")) name_required)
        (λ _. check_level ctx.trust_level trust_levels trust_level_required invalid_trust_level)
        first in
    level_of_check ctx.trust_level leveled

known_level : (t : String) → mem t trust_levels ≡ true → (n : ℕ) × (get? t levels ≡ some n)
known_level t h = elim (Bool-cases ("low" == t)) [
  | inl a ↦ (1, ground arith)
  | inr a ↦ elim (Bool-cases ("medium" == t)) [
    | inl b ↦ (2, ground arith)
    | inr b ↦ (3, ground arith)
  ]
]

abbrev all_at : (Requirement → Bool) → List (String × Requirement) → Bool
all_at p [] = true
all_at p ((k, r) ∷ rest) = p r && all_at p rest

holds_of_get? :
    (p : Requirement → Bool) (k : String) (m : List (String × Requirement)) (r : Requirement)
    → all_at p m ≡ true
    → get? k m ≡ some r
    → p r ≡ true
holds_of_get? p k [] r a h = cc
holds_of_get? p k ((j, q) ∷ m) r a h = elim (Bool-cases (j == k)) [
  | inl y ↦ let is : q ≡ r = ground arith in subst (λ x. p x ≡ true) is (ground arith)
  | inr n ↦ holds_of_get? p k m r (ground arith) (ground arith)
]

rank_le : (m n : ℕ) → is_negative (compare_ranks (some n) (some m)) ≡ false → m ≤ n
rank_le m n h = ground arith

meet_sound :
    (primitive : String) (req : Requirement) (c ctx : ExecutionContext) (m n : ℕ)
    → get? req.minimum_trust_level levels ≡ some m
    → get? c.trust_level levels ≡ some n
    → meet primitive req (some c) ≡ ok ctx
    → (c ≡ ctx) × (m ≤ n)
unfolding meet compare_trust_level
meet_sound primitive req c ctx m n hm hn h =
    let rank : compare_trust_level c.trust_level req.minimum_trust_level
        ≡ compare_ranks (some n) (some m) =
      rw (hn, hm) refl in
    elim (Bool-cases (is_negative (compare_trust_level c.trust_level req.minimum_trust_level))) [
      | inl low ↦ let wrong = rw (low, meet) at h in cc
      | inr fine ↦ (
        ok_inj (rw (fine, meet) at h),
        rank_le m n (subst (λ r. is_negative r ≡ false) rank fine),
      )
    ]

-- A primitive that is resolved among well-formed contexts is a known one, its context is the
-- one that it asks for, and the trust level of that context is at least the level required.
pub resolve_context-trusted :
    (is_abs : String → Bool) (contexts : List (String × ExecutionContext)) (primitive : String)
    (ctx : ExecutionContext)
    → WellFormed is_abs contexts
    → resolve_context primitive contexts ≡ ok ctx
    → (req : Requirement) × (required : ℕ) × (trusted : ℕ) × (get? primitive primitive_defaults
        ≡ some req)
      × (get? req.default_context_name contexts ≡ some ctx)
      × (get? req.minimum_trust_level levels ≡ some required)
      × (get? ctx.trust_level levels ≡ some trusted)
      × (required ≤ trusted)
unfolding resolve_context resolve_for
resolve_context-trusted is_abs contexts primitive ctx w h =
    elim (Option-cases (get? primitive primitive_defaults)) [
      | inl n ↦ let wrong = rw (n, resolve_context) at h in cc
      | inr (req, r) ↦ elim (Option-cases (get? req.default_context_name contexts)) [
        | inl n ↦ let wrong = rw (r, n, resolve_context, resolve_for) at h in cc
        | inr (c, found) ↦
            let (m, hm) = known_level req.minimum_trust_level (
              holds_of_get? (λ q. mem q.minimum_trust_level trust_levels) primitive
                primitive_defaults req refl r) in
            let (n, hn) = known_level c.trust_level (
              level_of_valid is_abs c
                (valid_of_get? is_abs req.default_context_name contexts c w found)) in
            let (is, enough) =
              meet_sound primitive req c ctx m n hm hn
                (rw (r, found, resolve_context, resolve_for) at h) in
            (
              req,
              m,
              n,
              r,
              subst (λ x. get? req.default_context_name contexts ≡ some x) is found,
              hm,
              subst (λ x. get? x.trust_level levels ≡ some n) is hn,
              enough,
            )
      ]
    ]
