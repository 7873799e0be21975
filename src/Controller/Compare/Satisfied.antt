-- ===== src/Controller/Compare/Satisfied.antt =====
-- When an observed state counts as the desired one.
use dotdevops.Prelude.{
  ℕ, ◌&&◌, and-eq-true, ◌≡◌, refl, ◌↔◌, arith, inl, inr, true, some, [], is_empty, eq_iff,
  Bool-cases, Option-cases, Bool, false, nat_beq,
}
use dotdevops.Json.{
  Value, Values, Fields, nil, bool, float, int, str, slice, object, item, end, field,
}
use dotdevops.Controller.Compare.{
  Floats, value_at, or_nil, field_count, bool_eq, deep_equal, fields_equal, items_equal,
  differences, compare_state,
}

bool_eq_iff : (b c : Bool) → (bool_eq b c ≡ true) ↔ (b ≡ c)
bool_eq_iff true true = (λ h. refl, λ h. refl)
bool_eq_iff true false = (λ h. cc, λ h. cc)
bool_eq_iff false true = (λ h. cc, λ h. cc)
bool_eq_iff false false = (λ h. refl, λ h. refl)

both_iff :
    {P Q : Type 0} (a b : Bool) → ((a ≡ true) ↔ P) → ((b ≡ true) ↔ Q) → ((a && b) ≡ true) ↔ (P × Q)
both_iff a b p q =
    ((λ h. let (l, r) = and-eq-true a b h in (p.0 l, q.0 r)), λ (l, r). rw (p.1 l, q.1 r) refl)

nat_beq_iff : (m n : ℕ) → (nat_beq m n ≡ true) ↔ (m ≡ n)
nat_beq_iff m n = ground arith

module _ (floats : Floats) where
  -- Two decoded values are equal: scalars by their value, lists item by item, and maps of the same
  -- number of keys if each key of the first has an equal value in the second, where a missing key
  -- reads as nil.
  mutual
    pub Equal : Value → Value → Type 0
    Equal nil nil = Unit
    Equal (object fs) (object gs) = (field_count fs ≡ field_count gs) × EqualFields fs gs
    Equal (slice vs) (slice ws) = EqualItems vs ws
    Equal (float x) (int n) = floats.same_as_int x n ≡ true
    Equal (int n) (float x) = floats.same_as_int x n ≡ true
    Equal (float x) (float y) = floats.same x y ≡ true
    Equal (int m) (int n) = m ≡ n
    Equal (str s) (str t) = s ≡ t
    Equal (bool b) (bool c) = b ≡ c
    Equal _ _ = ⊥

    pub EqualFields : Fields → Fields → Type 0
    EqualFields end gs = Unit
    EqualFields (field k v fs) gs = Equal v (or_nil (value_at k gs)) × EqualFields fs gs

    pub EqualItems : Values → Values → Type 0
    EqualItems Values.none Values.none = Unit
    EqualItems (item v vs) (item w ws) = Equal v w × EqualItems vs ws
    EqualItems _ _ = ⊥

  mutual
    unfolding deep_equal Equal

    deep_equal_iff : (v w : Value) → (deep_equal floats v w ≡ true) ↔ Equal v w
    deep_equal_iff nil nil = (λ h. tt, λ h. refl)
    deep_equal_iff (object fs) (object gs) =
        both_iff _ _ (nat_beq_iff (field_count fs) (field_count gs)) (fields_equal_iff fs gs)
    deep_equal_iff (slice vs) (slice ws) = items_equal_iff vs ws
    deep_equal_iff (float x) (int n) = (λ h. h, λ h. h)
    deep_equal_iff (int n) (float x) = (λ h. h, λ h. h)
    deep_equal_iff (float x) (float y) = (λ h. h, λ h. h)
    deep_equal_iff (int m) (int n) = nat_beq_iff m n
    deep_equal_iff (str s) (str t) = eq_iff s t
    deep_equal_iff (bool b) (bool c) = bool_eq_iff b c
    deep_equal_iff v w = (λ h. cc, λ h. absurd h)

    fields_equal_iff : (fs gs : Fields) → (fields_equal floats fs gs ≡ true) ↔ EqualFields fs gs
    fields_equal_iff end gs = (λ h. tt, λ h. refl)
    fields_equal_iff (field k v fs) gs =
        both_iff _ _ (deep_equal_iff v (or_nil (value_at k gs))) (fields_equal_iff fs gs)

    items_equal_iff : (vs ws : Values) → (items_equal floats vs ws ≡ true) ↔ EqualItems vs ws
    items_equal_iff Values.none Values.none = (λ h. tt, λ h. refl)
    items_equal_iff (item v vs) (item w ws) =
        both_iff _ _ (deep_equal_iff v w) (items_equal_iff vs ws)
    items_equal_iff vs ws = (λ h. cc, λ h. absurd h)

-- Every desired field is observed, with an equal value.
abbrev pub Satisfied : Floats → Fields → Fields → Type 0
Satisfied floats observed end = Unit
Satisfied floats observed (field k v fs) =
    ((w : Value) × (value_at k observed ≡ some w) × Equal floats w v) × Satisfied floats observed fs

Satisfied-of_none :
    (floats : Floats) (observed desired : Fields)
    → is_empty (differences floats observed desired) ≡ true
    → Satisfied floats observed desired
unfolding differences
Satisfied-of_none floats observed end h = tt
Satisfied-of_none floats observed (field k v fs) h = elim (Option-cases (value_at k observed)) [
  | inl n ↦ let wrong = rw (n, differences) at h in cc
  | inr (w, y) ↦ elim (Bool-cases (deep_equal floats w v)) [
    | inl e ↦ (
      (w, y, (deep_equal_iff floats w v).0 e),
      Satisfied-of_none floats observed fs (rw (y, e, differences) at h),
    )
    | inr d ↦ let wrong = rw (y, d, differences) at h in cc
  ]
]

none_of_Satisfied :
    (floats : Floats) (observed desired : Fields)
    → Satisfied floats observed desired
    → differences floats observed desired ≡ []
unfolding differences
none_of_Satisfied floats observed end s = refl
none_of_Satisfied floats observed (field k v fs) s =
    let (w, y, e) = s.0 in
    rw (y, (deep_equal_iff floats w v).1 e, differences) (none_of_Satisfied floats observed fs s.1)

-- compareState reports a match exactly if every desired field is observed with an equal value.
-- Inside of values, a key that is missing in a map of as many keys reads as nil.
pub compare_state_lem :
    (floats : Floats) (observed desired : Fields)
    → ((compare_state floats observed desired).0 ≡ true) ↔ Satisfied floats observed desired
unfolding compare_state
compare_state_lem floats observed desired = (
  (λ h. Satisfied-of_none floats observed desired h),
  (λ s. let is = none_of_Satisfied floats observed desired s in rw is refl),
)
