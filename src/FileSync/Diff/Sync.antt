-- ===== src/FileSync/Diff/Sync.antt =====
-- When a destination is in sync with a source, and the empty change set.
use dotdevops.Prelude.{
  ℕ, String, ◌≡◌, refl, ap, Bool, true, false, not, ◌&&◌, ◌||◌, Option, none, some, List, [], ◌∷◌,
  arith, mem, ◌↔◌, ◌⊎◌, is_empty, get?, has, any_at, All, All-map, eq_iff, eq_refl, Bool-cases,
  String-cases, inl, inr, or-eq-false,
}
use dotdevops.Prelude.Int.{ℤ, int_eq_iff, is_nonneg}
use dotdevops.Proto.{FileMeta, FileTree, ChangeSet}
use dotdevops.FileSync.Diff.{diff, is_empty_set}
use dotdevops.FileSync.Diff.Lists.{
  to_create, to_refresh, to_chmod, to_chown, to_mkdir, marked, diff_lists,
}

is_empty_iff : (xs : List String) → (is_empty xs ≡ true) ↔ ((p : String) → mem p xs ≡ false)
is_empty_iff [] = (λ h p. refl, λ h. refl)
is_empty_iff (x ∷ xs) = (λ h p. ground arith, λ h. ground (arith, h x, eq_refl x))

-- No path stands on any list.
abbrev Unlisted : ChangeSet → String → Type 0
Unlisted cs p =
    (mem p cs.create ≡ false)
    × (mem p cs.to_update ≡ false)
    × (mem p cs.delete ≡ false)
    × (mem p cs.chmod ≡ false)
    × (mem p cs.chown ≡ false)
    × (mem p cs.mkdir ≡ false)

is_empty_lists : (cs : ChangeSet) → is_empty_set cs ≡ true → (p : String) → Unlisted cs p
unfolding is_empty_set
is_empty_lists cs h p = (
  (is_empty_iff cs.create).0 (ground arith) p,
  (is_empty_iff cs.to_update).0 (ground arith) p,
  (is_empty_iff cs.delete).0 (ground arith) p,
  (is_empty_iff cs.chmod).0 (ground arith) p,
  (is_empty_iff cs.chown).0 (ground arith) p,
  (is_empty_iff cs.mkdir).0 (ground arith) p,
)

lists_empty : (cs : ChangeSet) → ((p : String) → Unlisted cs p) → is_empty_set cs ≡ true
unfolding is_empty_set
lists_empty cs h = ground (
  arith,
  (is_empty_iff cs.create).1 (λ p. (h p).0),
  (is_empty_iff cs.to_update).1 (λ p. (h p).1),
  (is_empty_iff cs.delete).1 (λ p. (h p).2),
  (is_empty_iff cs.chmod).1 (λ p. (h p).3),
  (is_empty_iff cs.chown).1 (λ p. (h p).4),
  (is_empty_iff cs.mkdir).1 (λ p. (h p).5),
)

-- No path is marked exactly if no entry passes the test with the entry of the same path.
any_at-never :
    (t : String → FileMeta → Bool) (src : FileTree)
    → ((p : String) → any_at p (t p) src ≡ false)
      ↔ All (λ (e : String × FileMeta). t e.0 e.1 ≡ false) src
any_at-never t [] = (λ h. tt, λ h p. refl)
any_at-never t ((rel, meta) ∷ src) = (
  λ h.
      (ground (arith, h rel, eq_refl rel), (any_at-never t src).0 (λ p. (or-eq-false _ _ (h p)).1)),
  λ h p. elim (String-cases rel p) [
    | inl e ↦ ground (arith, (any_at-never t src).1 h.1 p, ap (λ k. t k meta) e, h.0)
    | inr (n, _, _) ↦ ground (arith, (any_at-never t src).1 h.1 p)
  ],
)

any_at-or :
    (p : String) (f g : FileMeta → Bool) (t : FileTree)
    → any_at p (λ m. f m || g m) t ≡ (any_at p f t || any_at p g t)
any_at-or p f g [] = refl
any_at-or p f g ((rel, meta) ∷ t) = ground (arith, any_at-or p f g t)

module _ (mode : ℕ) (uid gid : ℤ) where
  -- What the destination has at a path is what the source's entry there wants: for a directory any
  -- entry will do.
  abbrev pub Agrees : FileMeta → Option FileMeta → Type 0
  Agrees src none = ⊥
  Agrees src (some d) =
      (src.is_dir ≡ true)
      ⊎ ((src.sha256 ≡ d.sha256)
          × (src.size ≡ d.size)
          × ((mode ≡ 0) ⊎ (d.mode ≡ mode))
          × ((is_nonneg uid ≡ false) ⊎ (is_nonneg gid ≡ false) ⊎ ((d.uid ≡ uid) × (d.gid ≡ gid))))

  abbrev busy : FileMeta → Option FileMeta → Bool
  busy src o =
      to_create src o
      || to_refresh src o
      || to_chmod mode src o
      || to_chown uid gid src o
      || to_mkdir src o

  busy_iff : (src : FileMeta) (o : Option FileMeta) → (busy src o ≡ false) ↔ Agrees src o
  busy_iff src none = ground arith
  busy_iff src (some d) = ground (
    arith,
    eq_iff src.sha256 d.sha256,
    int_eq_iff src.size d.size,
    int_eq_iff d.uid uid,
    int_eq_iff d.gid gid,
  )

  marked-busy :
      (dest : FileTree) (p : String) (src : FileTree)
      → marked dest p src busy ≡ (
          marked dest p src to_create
          || marked dest p src to_refresh
          || marked dest p src (to_chmod mode)
          || marked dest p src (to_chown uid gid)
          || marked dest p src to_mkdir)
  marked-busy dest p src = simp any_at-or

  -- The destination agrees with every entry of the source, and if extra files are to be deleted,
  -- it has no file of which the source has nothing.
  pub record InSync (src dest : FileTree) (delete_extra : Bool) : Type 0 where
    pub agrees : All (λ (e : String × FileMeta). Agrees e.1 (get? e.0 dest)) src
    pub no_extra :
        (delete_extra ≡ false)
        ⊎ All (λ (e : String × FileMeta). (e.1.is_dir ≡ true) ⊎ (has e.0 src ≡ true)) dest

  module _ (src dest : FileTree) (delete_extra : Bool) where
    abbrev outcome : ChangeSet
    outcome = diff src dest mode uid gid delete_extra

    abbrev extra : String → FileMeta → Bool
    extra p m = not m.is_dir && not (has p src)

    empty_iff_unmarked : (is_empty_set outcome ≡ true) ↔ (
        (p : String)
        → (marked dest p src busy ≡ false) × ((delete_extra && any_at p (extra p) dest) ≡ false))
    empty_iff_unmarked = (
      λ h p.
          let (create, to_update, chmod, chown, mkdir, delete) =
            diff_lists src dest mode uid gid delete_extra p in
          ground (
            arith,
            marked-busy dest p src,
            is_empty_lists outcome h p,
            create,
            to_update,
            chmod,
            chown,
            mkdir,
            delete,
          ),
      λ h. lists_empty outcome λ p.
          let (create, to_update, chmod, chown, mkdir, delete) =
            diff_lists src dest mode uid gid delete_extra p in
          ground
            (arith, marked-busy dest p src, h p, create, to_update, chmod, chown, mkdir, delete),
    )

    extra_iff : ((p : String) → (delete_extra && any_at p (extra p) dest) ≡ false) ↔ (
        (delete_extra ≡ false)
        ⊎ All (λ (e : String × FileMeta). (e.1.is_dir ≡ true) ⊎ (has e.0 src ≡ true)) dest)
    extra_iff = (
      λ h. elim (Bool-cases delete_extra) [
        | inr e ↦ inl e
        | inl e ↦ inr (
            All-map dest (λ x n. ground arith)
              ((any_at-never extra dest).0 (λ p. ground (arith, h p))))
      ],
      λ h p. elim h [
        | inl e ↦ ground arith
        | inr all ↦
            ground (arith, (any_at-never extra dest).1 (All-map dest (λ x n. ground arith) all) p)
      ],
    )

    -- Diff returns an empty change set exactly if the destination has an entry at each path of the
    -- source, of any kind where the source has a directory, and else with the hash and the size of
    -- the source's, the wanted mode if one is set and the wanted owner if one is set, and if extra
    -- files are to be deleted, it has no file of which the source has nothing.
    pub diff-empty_iff : (is_empty_set outcome ≡ true) ↔ InSync src dest delete_extra
    diff-empty_iff = (
      λ h.
          let marks = empty_iff_unmarked.0 h in
          record {
            agrees =
                All-map src (λ e n. (busy_iff e.1 (get? e.0 dest)).0 n)
                  ((any_at-never (λ p m. busy m (get? p dest)) src).0 (λ p. (marks p).0));
            no_extra = extra_iff.0 (λ p. (marks p).1);
          },
      λ s. empty_iff_unmarked.1 λ p. (
        (any_at-never (λ q m. busy m (get? q dest)) src).1
            (All-map src (λ e n. (busy_iff e.1 (get? e.0 dest)).1 n) s.agrees) p,
        extra_iff.1 s.no_extra p,
      ),
    )
