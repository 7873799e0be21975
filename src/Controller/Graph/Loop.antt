-- ===== src/Controller/Graph/Loop.antt =====
-- The loop of `detectCycles` over any edges, in-degrees and queue, and its invariant.
use dotdevops.Prelude.{
  ℕ, zero, suc, ◌+◌, ◌≤◌, ◌<◌, String, ◌≡◌, refl, true, false, some, List, [], ◌∷◌, ◌++◌, arith,
  eq_iff, eq_refl, mem, count, length, count-append, Map, update, mem_of_count_pos,
  count_pos_of_mem, length-le_of_counts, counts-eq_of_length, if◌then◌else◌, Subset,
}
use dotdevops.Prelude.Int.{ℤ, pos, pred, is_zero}
use dotdevops.Controller.Graph.{release, kahn}

-- How many of the names on a list are not among the nodes taken from the queue.
abbrev pub pending : List String → List String → ℕ
pending done [] = 0
pending done (d ∷ deps) = if mem d done then pending done deps else suc (pending done deps)

pub pending-nil : (deps : List String) → pending [] deps ≡ length deps
pending-nil [] = refl
pending-nil (d ∷ deps) = ground (arith, pending-nil deps)

pending-cons :
    (u : String) (done deps : List String)
    → mem u done ≡ false
    → pending done deps ≡ pending (u ∷ done) deps + count u deps
pending-cons u done [] h = omega arith
pending-cons u done (d ∷ deps) h =
    ground (arith, pending-cons u done deps h, eq_iff d u, eq_iff u d)

pub mem_of_pending-zero :
    (x : String) (done deps : List String)
    → pending done deps ≡ 0
    → mem x deps ≡ true
    → mem x done ≡ true
mem_of_pending-zero x done [] h m = ground arith
mem_of_pending-zero x done (d ∷ deps) h m =
    ground (arith, mem_of_pending-zero x done deps, eq_iff d x)

pub pending-zero_of_subset : (done deps : List String) → Subset deps done → pending done deps ≡ 0
pending-zero_of_subset done [] h = refl
pending-zero_of_subset done (d ∷ deps) h =
    ground (arith, h d, eq_refl d, pending-zero_of_subset done deps (λ x m. h x (ground arith)))

-- The newest first: each node stands before its dependencies.
abbrev pub IsOrdered : Map (List String) → List String → Type 0
IsOrdered deps [] = Unit
IsOrdered deps (u ∷ done) = Subset (deps u) done × IsOrdered deps done

module _ (ids : List String) (deps edges : Map (List String)) where
  -- What holds before each round, and within a round while `rest` of the edges of the newest
  -- node is still to be released.
  pub record Inv (done queue rest : List String) (deg : Map ℤ) : Type 0 where
    pub counted :
        (v : String) → mem v ids ≡ true → deg v ≡ pos (pending done (deps v) + count v rest)
    pub known : (v : String) → 0 < count v rest → mem v ids ≡ true
    pub found : (v : String) → mem v ids ≡ true → deg v ≡ pos 0 → 0 < count v queue + count v done
    pub settled :
        (v : String) → 0 < count v queue + count v done → (mem v ids ≡ true) × (deg v ≡ pos 0)
    pub once : (v : String) → count v queue + count v done ≤ 1
    pub ordered : IsOrdered deps done

  -- What the graph is told of its edges: as many from `u` to `v` as `v` names `u`.
  pub record Mirrors : Type 0 where
    pub inside : (u v : String) → mem v ids ≡ true → count v (edges u) ≡ count u (deps v)
    pub outside : (u v : String) → 0 < count v (edges u) → mem v ids ≡ true

  module _ (done : List String) where
    release-step :
        (v : String) (vs queue : List String) (deg : Map ℤ)
        → Inv done queue (v ∷ vs) deg
        → Inv done
            (if is_zero (update deg v (pred (deg v)) v) then queue ++ v ∷ [] else queue)
            vs
            (update deg v (pred (deg v)))
    release-step v vs queue deg inv = record {
      counted = λ w m. ground (arith, inv.counted w m, inv.counted v here, eq_iff v w, eq_refl v);
      known = λ w m. inv.known w (ground arith);
      found = λ w m z.
          ground (arith, up, inv.found w m, count-append w queue (v ∷ []), eq_iff v w, eq_refl v);
      settled = λ w m. (
        ground (arith, here, inv.settled w, count-append w queue (v ∷ []), eq_iff v w, eq_refl v),
        ground (
          arith,
          up,
          absent,
          inv.settled w,
          count-append w queue (v ∷ []),
          eq_iff v w,
          eq_refl v,
        ),
      );
      once = λ w. ground (arith, absent, inv.once w, count-append w queue (v ∷ []), eq_iff v w);
      ordered = inv.ordered;
    }
      where
        here : mem v ids ≡ true
        here = inv.known v (ground (arith, eq_refl v))

        up : deg v ≡ pos (suc (pending done (deps v) + count v vs))
        up = ground (arith, inv.counted v here, eq_refl v)

        absent : count v queue + count v done ≡ 0
        absent = ground (arith, up, inv.settled v)

    pub release-Inv :
        (vs queue : List String) (deg : Map ℤ)
        → Inv done queue vs deg
        → Inv done (release vs deg queue).1 [] (release vs deg queue).0
    unfolding release
    release-Inv [] queue deg inv = inv
    release-Inv (v ∷ vs) queue deg inv =
        release-Inv vs (if is_zero (update deg v (pred (deg v)) v) then queue ++ v ∷ [] else queue)
          (update deg v (pred (deg v))) (release-step v vs queue deg inv)

  pub count-le-ids :
      {done queue rest : List String} {deg : Map ℤ} (v : String)
      → Inv done queue rest deg
      → count v done ≤ count v ids
  count-le-ids {done} v inv = ground (arith, inv.once v, inv.settled v, count_pos_of_mem v ids)

  module _ (mirrors : Mirrors) where
    pub take-Inv :
        (done queue : List String) (u : String) (deg : Map ℤ)
        → Inv done (u ∷ queue) [] deg
        → Inv (u ∷ done) queue (edges u) deg
    take-Inv done queue u deg inv = record {
      counted = λ v m.
          ground
            (arith, inv.counted v m, mirrors.inside u v m, pending-cons u done (deps v), fresh);
      known = mirrors.outside u;
      found = λ v m z. ground (arith, inv.found v m z);
      settled = λ v m. inv.settled v (ground arith);
      once = λ v. ground (arith, inv.once v);
      ordered = (
        λ x m. mem_of_pending-zero x done (deps u) (ground (arith, inv.counted u here.0, here.1)) m,
        inv.ordered,
      );
    }
      where
        here : (mem u ids ≡ true) × (deg u ≡ pos 0)
        here = inv.settled u (ground (arith, eq_refl u))

        fresh : mem u done ≡ false
        fresh = ground (arith, inv.once u, eq_refl u, count_pos_of_mem u done)

    -- Each round takes a node that was not taken before, so one round for each node is enough;
    -- the count that the loop returns is the length of a list that keeps the invariant.
    pub kahn-Inv :
        (fuel : ℕ) (done queue : List String) (deg : Map ℤ)
        → Inv done queue [] deg
        → length ids < fuel + length done
        → (final : List String) × (kahn fuel edges deg queue (length done) ≡ some (length final))
          × (deg' : Map ℤ) × Inv final [] [] deg'
    unfolding kahn
    kahn-Inv zero done queue deg inv enough =
        absurd (omega (arith, length-le_of_counts done ids (λ v. count-le-ids v inv)))
    kahn-Inv (suc fuel) done [] deg inv enough = (done, refl, deg, inv)
    kahn-Inv (suc fuel) done (u ∷ queue) deg inv enough =
        kahn-Inv fuel (u ∷ done) (release (edges u) deg queue).1 (release (edges u) deg queue).0
          (release-Inv (u ∷ done) (edges u) queue deg (take-Inv done queue u deg inv)) (omega arith)

  -- The loop took every node exactly if the graph has no cycle.
  module _ {final : List String} {deg : Map ℤ} (inv : Inv final [] [] deg) where
    pub all_taken : length ids ≤ length final → (v : String) → count v final ≡ count v ids
    all_taken h v =
        omega
          (arith, count-le-ids v inv, counts-eq_of_length final ids (λ w. count-le-ids w inv) h v)

    below :
        (rank : String → ℕ)
        → ((v d : String)
            → mem v ids ≡ true
            → mem d (deps v) ≡ true
            → (mem d ids ≡ true) × (rank d < rank v))
        → (n : ℕ) (v : String) → rank v < n
        → mem v ids ≡ true
        → mem v final ≡ true
    below rank ranked zero v h m = absurd (omega arith)
    below rank ranked (suc n) v h m =
        let clear : pending final (deps v) ≡ 0 = pending-zero_of_subset final (deps v) (λ d md.
          let (known, lower) = ranked v d m md in below rank ranked n d (omega arith) known) in
        mem_of_count_pos v final (ground (arith, inv.found v m, inv.counted v m, clear))

    pub all_taken_of_ranked :
        (rank : String → ℕ)
        → ((v d : String)
            → mem v ids ≡ true
            → mem d (deps v) ≡ true
            → (mem d ids ≡ true) × (rank d < rank v))
        → ((v : String) → count v ids ≤ 1)
        → length final ≡ length ids
    all_taken_of_ranked rank ranked single =
        let up : length final ≤ length ids =
          length-le_of_counts final ids (λ v. count-le-ids v inv) in
        let down : length ids ≤ length final = length-le_of_counts ids final (λ v. ground (
          arith,
          single v,
          mem_of_count_pos v ids,
          below rank ranked (suc (rank v)) v,
          count_pos_of_mem v final,
        )) in
        omega arith
