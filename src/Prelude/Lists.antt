-- ===== src/Prelude/Lists.antt =====
-- Lists of names: membership as a test, occurrences, and lengths over the native numbers.
use Prim.Native.Nat.{ℕ, suc, ◌+◌, ◌≤◌, ◌<◌}
use Prim.Native.String.{String}
use mathlib.Core.Path.{◌≡◌, refl, subst}
use mathlib.Core.Logic.{inl, inr}
use mathlib.Core.Bool.{Bool, true, false, ◌||◌}
use mathlib.Core.List.{List, [], ◌∷◌, ◌++◌}
use native.Mathlib.Omega.{arith}
use text.Mathlib.Text.{◌==◌}
use text.Mathlib.TextEquality.{eq_iff}
use text.Mathlib.TextPositions.{eq_refl}
use dotdevops.Prelude.Tests.{if◌then◌else◌, String-cases}

module _ {ℓ} {A : Type ℓ} where
  abbrev pub length : List A → ℕ
  length [] = 0
  length (x ∷ xs) = suc (length xs)

  pub length-append : (xs ys : List A) → length (xs ++ ys) ≡ length xs + length ys
  length-append [] ys = omega arith
  length-append (x ∷ xs) ys = omega (arith, length-append xs ys)

  abbrev pub All {κ} : (A → Type κ) → List A → Type κ
  All P [] = Unit
  All P (x ∷ xs) = P x × All P xs

  -- `len(xs) == 0`
  abbrev pub is_empty : List A → Bool
  is_empty [] = true
  is_empty (x ∷ xs) = false

pub All-map {ℓ κ μ} :
    {A : Type ℓ} {P : A → Type κ} {Q : A → Type μ} (xs : List A)
    → ((x : A) → P x → Q x)
    → All P xs
    → All Q xs
All-map [] f h = tt
All-map (x ∷ xs) f h = (f x h.0, All-map xs f h.1)

abbrev pub mem : String → List String → Bool
mem x [] = false
mem x (y ∷ ys) = y == x || mem x ys

abbrev pub count : String → List String → ℕ
count x [] = 0
count x (y ∷ ys) = if y == x then suc (count x ys) else count x ys

pub mem-append : (x : String) (xs ys : List String) → mem x (xs ++ ys) ≡ (mem x xs || mem x ys)
mem-append x [] ys = refl
mem-append x (z ∷ xs) ys = ground (arith, mem-append x xs ys)

pub All-of_mem {κ} :
    {P : String → Type κ} (xs : List String) → ((x : String) → mem x xs ≡ true → P x) → All P xs
All-of_mem [] h = tt
All-of_mem (x ∷ xs) h = (h x (ground (arith, eq_refl x)), All-of_mem xs (λ y m. h y (ground arith)))

pub of_mem-All {κ} :
    (P : String → Type κ) (xs : List String) → All P xs → (x : String) → mem x xs ≡ true → P x
of_mem-All P [] all x m = absurd (ground arith)
of_mem-All P (y ∷ ys) all x m = elim (String-cases y x) [
  | inl e ↦ subst P e all.0
  | inr (ne, _, _) ↦ of_mem-All P ys all.1 x (ground (arith, ne))
]

-- Every name of the one list is in the other.
abbrev pub Subset : List String → List String → Type 0
Subset xs ys = (x : String) → mem x xs ≡ true → mem x ys ≡ true

-- No name twice.
abbrev pub Distinct : List String → Type 0
Distinct [] = Unit
Distinct (x ∷ xs) = (mem x xs ≡ false) × Distinct xs

pub count_pos_of_mem : (x : String) (xs : List String) → mem x xs ≡ true → 0 < count x xs
count_pos_of_mem x [] h = ground arith
count_pos_of_mem x (y ∷ ys) h = ground (arith, count_pos_of_mem x ys)

pub mem_of_count_pos : (x : String) (xs : List String) → 0 < count x xs → mem x xs ≡ true
mem_of_count_pos x [] h = ground arith
mem_of_count_pos x (y ∷ ys) h = ground (arith, mem_of_count_pos x ys)

pub count-eq-zero : (x : String) (xs : List String) → mem x xs ≡ false → count x xs ≡ 0
count-eq-zero x [] h = refl
count-eq-zero x (y ∷ ys) h = ground (arith, count-eq-zero x ys)

pub count-append : (x : String) (xs ys : List String) → count x (xs ++ ys) ≡ count x xs + count x ys
count-append x [] ys = omega arith
count-append x (z ∷ xs) ys = ground (arith, count-append x xs ys)

pub count-le_one : (x : String) (xs : List String) → Distinct xs → count x xs ≤ 1
count-le_one x [] d = omega arith
count-le_one x (y ∷ ys) d = elim (String-cases y x) [
  | inl e ↦ ground (arith, count-eq-zero y ys d.0, eq_refl x)
  | inr n ↦ ground (arith, count-le_one x ys d.1)
]

-- The list without the first occurrence of a name.
pub erase : String → List String → List String
erase x [] = []
erase x (y ∷ ys) = if y == x then ys else y ∷ erase x ys

pub length-erase :
    (x : String) (xs : List String) → 0 < count x xs → length xs ≡ suc (length (erase x xs))
unfolding erase
length-erase x [] h = ground arith
length-erase x (y ∷ ys) h = ground (arith, length-erase x ys)

pub count-erase :
    (v x : String) (xs : List String)
    → 0 < count x xs
    → count v xs ≡ count v (erase x xs) + (if x == v then 1 else 0)
unfolding erase
count-erase v x [] h = ground arith
count-erase v x (y ∷ ys) h = ground (arith, count-erase v x ys, eq_iff y x, eq_iff x v, eq_iff y v)

-- A list that holds no name more often than another is no longer.
pub length-le_of_counts :
    (xs ys : List String) → ((v : String) → count v xs ≤ count v ys) → length xs ≤ length ys
length-le_of_counts [] ys h = omega arith
length-le_of_counts (x ∷ xs) ys h =
    let has : 0 < count x ys = ground (arith, h x, eq_refl x) in
    let rest : length xs ≤ length (erase x ys) =
      length-le_of_counts xs (erase x ys) (λ v. ground (arith, h v, count-erase v x ys has)) in
    omega (arith, length-erase x ys has)

-- If it is as long, it holds each name as often.
pub counts-eq_of_length :
    (xs ys : List String)
    → ((v : String) → count v xs ≤ count v ys)
    → length ys ≤ length xs
    → (v : String) → count v ys ≤ count v xs
counts-eq_of_length [] [] h l v = omega arith
counts-eq_of_length [] (y ∷ ys) h l v = absurd (omega arith)
counts-eq_of_length (x ∷ xs) ys h l v =
    let has : 0 < count x ys = ground (arith, h x, eq_refl x) in
    let rest : count v (erase x ys) ≤ count v xs =
      counts-eq_of_length xs (erase x ys) (λ w. ground (arith, h w, count-erase w x ys has))
        (omega (arith, length-erase x ys has)) v in
    ground (arith, count-erase v x ys has)
