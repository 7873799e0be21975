-- ===== src/Devlang/Comp.antt =====
-- Computations that return a value or an error, on fuel for the depth of the calls.
use mathlib.Core.Path.{◌≡◌, refl}
use dotdevops.Prelude.{Bool, true, false, if◌then◌else◌}

pub data Comp {ℓ κ} (E : Type ℓ) (A : Type κ) : Type (ℓ ⊔ κ) where
  ok : A → Comp E A
  err : E → Comp E A
  no_fuel : Comp E A

infixl 5 ◌>>=◌
abbrev pub ◌>>=◌ {ℓ κ μ} :
    {E : Type ℓ} {A : Type κ} {B : Type μ} → Comp E A → (A → Comp E B) → Comp E B
ok a >>= f = f a
err e >>= f = err e
no_fuel >>= f = no_fuel

-- The computation returned.
abbrev pub Returned {ℓ κ} : {E : Type ℓ} {A : Type κ} → Comp E A → Type 0
Returned no_fuel = ⊥
Returned _ = Unit

pub bind-eq-ok {ℓ κ μ} :
    {E : Type ℓ} {A : Type κ} {B : Type μ} (m : Comp E A) (f : A → Comp E B) {b : B}
    → (m >>= f) ≡ ok b
    → (a : A) × (m ≡ ok a) × (f a ≡ ok b)
bind-eq-ok (ok a) f h = (a, refl, h)
bind-eq-ok (err e) f h = cc
bind-eq-ok no_fuel f h = cc

pub Returned-bind {ℓ κ μ} :
    {E : Type ℓ} {A : Type κ} {B : Type μ} (m : Comp E A) (f : A → Comp E B)
    → Returned m
    → ((a : A) → Returned (f a))
    → Returned (m >>= f)
Returned-bind (ok a) f h k = k a
Returned-bind (err e) f h k = tt
Returned-bind no_fuel f h k = h

pub ok_inj {ℓ κ} : {E : Type ℓ} {A : Type κ} {a b : A} → ◌≡◌ {A = Comp E A} (ok a) (ok b) → a ≡ b
ok_inj h = cc

pub Returned-if {ℓ κ} :
    {E : Type ℓ} {A : Type κ} (b : Bool) (x y : Comp E A)
    → Returned x
    → Returned y
    → Returned (if b then x else y)
Returned-if true x y h k = h
Returned-if false x y h k = k
