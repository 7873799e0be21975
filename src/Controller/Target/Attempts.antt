-- ===== src/Controller/Target/Attempts.antt =====
-- The attempts for one target, and the decision to skip it.
use dotdevops.Prelude.{
  ℕ, zero, suc, String, ◌≡◌, refl, ◌⊎◌, inl, inr, Bool, true, false, ◌==◌, Option, none, some, List,
  [], ◌∷◌, ◌++◌, Result, ok, err, arith, All, length, Bool-cases,
}
use dotdevops.State.Store.{Execution, StoreError}
use dotdevops.Plan.Schema.{Node}
use dotdevops.Controller.Node.{Options, Ran}
use dotdevops.Controller.Target.{
  Decision, execute, decide, is_resumable, is_reconciled, succeeded, run_attempts,
}

-- The calls of runNode for one target: every call but the last returned an error, and the last one
-- succeeded or is the last attempt that is allowed.
pub run_attempts_lem :
    (run : ℕ → Ran) (a more : ℕ)
    → (failures : List Ran) × (last : Ran) × (run_attempts run a more ≡ failures ++ last ∷ [])
      × All (λ r. succeeded r ≡ false) failures
      × ((succeeded last ≡ true) ⊎ (length failures ≡ more))
unfolding run_attempts
run_attempts_lem run a zero = ([], run a, refl, tt, inr refl)
run_attempts_lem run a (suc more) =
    let (failures, last, is, failed, done) = run_attempts_lem run (suc a) more in
    elim (Bool-cases (succeeded (run a))) [
      | inl y ↦ ([], run a, rw y refl, tt, inl y)
      | inr n ↦ (
        run a ∷ failures,
        last,
        rw (n, is) refl,
        (n, failed),
        elim done [ inl s ↦ inl s | inr l ↦ inr (omega arith) ],
      )
    ]

abbrev pub is_execute : Decision → Bool
is_execute execute = true
is_execute _ = false

-- A target is skipped on its history only when its latest execution is an applied one, of the same
-- plan on a resume, and of the same node and not idempotent otherwise.
pub decide_lem :
    (opts : Options) (node : Node) (plan_hash node_hash : String)
    (history : Result StoreError (Option Execution))
    → is_execute (decide opts node plan_hash node_hash history) ≡ false
    → (latest : Execution) × (history ≡ ok (some latest))
      × ((latest.status == "applied") ≡ true)
      × (((latest.plan_hash == plan_hash) ≡ true)
          ⊎ (((latest.node_hash == node_hash) ≡ true) × (node.idempotent ≡ false)))
unfolding decide
decide_lem opts node plan_hash node_hash (err e) h = cc
decide_lem opts node plan_hash node_hash (ok none) h = cc
decide_lem opts node plan_hash node_hash (ok (some latest)) h =
    elim (Bool-cases (is_resumable opts plan_hash latest)) [
      | inl y ↦ (latest, refl, ground arith, inl (ground arith))
      | inr n ↦ elim (Bool-cases (is_reconciled opts node node_hash latest)) [
        | inl y ↦ (latest, refl, ground arith, inr (ground arith, ground arith))
        | inr k ↦ let wrong = rw (n, k) at h in cc
      ]
    ]
