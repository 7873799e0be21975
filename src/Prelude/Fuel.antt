-- ===== src/Prelude/Fuel.antt =====
-- What holds for all fuel from some amount on.
use Prim.Native.Nat.{ℕ, zero, suc, ◌+◌, ◌≤◌}
use native.Mathlib.Omega.{arith}

abbrev pub Eventually : (ℕ → Type 0) → Type 0
Eventually P = (k : ℕ) × ((f : ℕ) → k ≤ f → P f)

pub always : (P : ℕ → Type 0) → ((f : ℕ) → P f) → Eventually P
always P h = (0, λ f le. h f)

-- The function spends a unit of fuel.
pub spend : (P Q : ℕ → Type 0) → ((f : ℕ) → P f → Q (suc f)) → Eventually P → Eventually Q
spend P Q step (k, h) = (suc k, go)
  where
    go : (f : ℕ) → suc k ≤ f → Q f
    go zero le = absurd (omega arith)
    go (suc f) le = step f (h f (omega arith))

-- One unit of fuel is enough.
pub once : (Q : ℕ → Type 0) → ((f : ℕ) → Q (suc f)) → Eventually Q
once Q h = spend (λ f. Unit {0}) Q (λ f u. h f) (always (λ f. Unit {0}) (λ f. tt))

pub both :
    (P Q R : ℕ → Type 0) → ((f : ℕ) → P f → Q f → R f) → Eventually P → Eventually Q → Eventually R
both P Q R join (m, h) (n, k) = (m + n, λ f le. join f (h f (omega arith)) (k f (omega arith)))
