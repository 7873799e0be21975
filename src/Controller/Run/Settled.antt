-- ===== src/Controller/Run/Settled.antt =====
-- What the statuses of the nodes say in the states of a run, and how a step that sets one keeps it.
use dotdevops.Prelude.{
  ◌+◌, ◌≤◌, ◌<◌, String, ◌≡◌, ◌≢◌, sym, subst, Bool, true, false, List, arith, ◌==◌, ◌⊎◌, inl, inr,
  eq_iff, eq_refl, mem, count, is_empty, if◌then◌else◌, Bool-cases,
}
use dotdevops.Plan.Schema.{Node}
use dotdevops.Controller.Graph.Correct.{deps_of}
use dotdevops.Controller.Run.{RunState, Status, pending, failed, applied}

-- The status of a node whose targets were run.
abbrev pub has_run : Status → Bool
has_run failed = true
has_run applied = true
has_run _ = false

-- A status is final exactly once the node is on the channel or collected, and the dependencies
-- of a node that runs or has run are applied.
pub record Settled (nodes : List Node) (s : RunState) : Type 0 where
  pub waiting : (v : String) → count v s.done + count v s.collected ≡ 0 → s.node_states v ≡ pending
  pub ended : (v : String) → 0 < count v s.done + count v s.collected → s.node_states v ≢ pending
  pub running :
      (v d : String)
      → 0 < count v s.executing
      → mem d (deps_of nodes v) ≡ true
      → s.node_states d ≡ applied
  pub run_after :
      (v d : String)
      → has_run (s.node_states v) ≡ true
      → mem d (deps_of nodes v) ≡ true
      → s.node_states d ≡ applied
  pub reported : (v : String) → s.node_states v ≡ failed → is_empty s.errs ≡ false
  pub blamed : is_empty s.errs ≡ false → (v : String) × (s.node_states v ≡ failed)

module _ (nodes : List Node) where
  -- A step gives the waiting node `id` its status and puts it on the channel.
  pub record Sets (s s' : RunState) (id : String) (st : Status) : Type 0 where
    pub was : s.node_states id ≡ pending
    pub states : (v : String) → s'.node_states v ≡ (if id == v then st else s.node_states v)
    pub final : st ≢ pending
    pub moved :
        (v : String)
        → count v s'.done + count v s'.collected
          ≡ count v s.done + count v s.collected + (if id == v then 1 else 0)
    pub executing : (v : String) → count v s'.executing ≤ count v s.executing
    pub allowed :
        has_run st ≡ true
        → (d : String) → mem d (deps_of nodes id) ≡ true
        → s.node_states d ≡ applied
    pub errs : is_empty s.errs ≡ false → is_empty s'.errs ≡ false
    pub failure : st ≡ failed → is_empty s'.errs ≡ false
    pub blame : is_empty s'.errs ≡ false → (is_empty s.errs ≡ false) ⊎ (st ≡ failed)

  pub Sets-Settled :
      {s s' : RunState} {id : String} {st : Status}
      → Sets s s' id st
      → Settled nodes s
      → Settled nodes s'
  Sets-Settled {s} {s'} {id} {st} w old = record {
    waiting = λ v h. ground (arith, w.states v, w.moved v, old.waiting v);
    ended = λ v h. ground (arith, w.states v, w.moved v, old.ended v, w.final);
    running =
        λ v d h m. ground (arith, w.states d, w.was, eq_iff id d, w.executing v, old.running v d);
    run_after = λ v d h m. ground (
      arith,
      w.states d,
      w.states v,
      w.was,
      eq_iff id d,
      eq_iff id v,
      old.run_after v d,
      before v d h m,
    );
    reported = λ v h. ground (arith, w.states v, w.errs, w.failure, old.reported v);
    blamed = λ h. elim (w.blame h) [
      | inl earlier ↦
          let (v, e) = old.blamed earlier in (v, ground (arith, w.states v, w.was, eq_iff id v))
      | inr e ↦ (id, ground (arith, w.states id, eq_refl id))
    ];
  }
    where
      before :
          (v d : String)
          → has_run (s'.node_states v) ≡ true
          → mem d (deps_of nodes v) ≡ true
          → s.node_states d ≡ applied
      before v d h m = elim (Bool-cases (id == v)) [
        | inl e ↦
            w.allowed (ground (arith, w.states v)) d
              (subst (λ x. mem d (deps_of nodes x) ≡ true) (sym ((eq_iff id v).0 e)) m)
        | inr e ↦ old.run_after v d (ground (arith, w.states v)) m
      ]
