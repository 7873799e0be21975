-- ===== src/Agent/Context/Access.antt =====
-- What the checks of the executor let pass.
use text.Mathlib.Text.{starts_with}
use dotdevops.Prelude.{
  String, ◌≡◌, refl, sym, subst, ◌↔◌, ◌⊎◌, inl, inr, Bool, true, false, ◌&&◌, ◌==◌, Option, some,
  List, [], ◌∷◌, arith, is_empty, mem, All, Bool-cases, Option-cases, ok, err, eq_iff, eq_refl,
  if◌then◌else◌,
}
use dotdevops.Prelude.Text.{contains}
use dotdevops.Agent.Context.{ExecutionContext, FilesystemConfig}
use dotdevops.Agent.Context.Executor.{
  AccessError, Access, any, names_executable, validate_command, validate_file_path,
  validate_operation, validate_read_path, validate_write_path, FileOperation, op_read, op_write,
}

-- Some element passes the test.
abbrev pub Some : (String → Bool) → List String → Type 0
Some p xs = (x : String) × (mem x xs ≡ true) × (p x ≡ true)

any-none : (p : String → Bool) (xs : List String) → (any p xs ≡ false) ↔ All (λ x. p x ≡ false) xs
any-none p [] = ((λ h. tt), (λ h. refl))
any-none p (x ∷ xs) = (
  (λ h. (ground arith, (any-none p xs).0 (ground arith))),
  (λ h. ground (arith, h.0, (any-none p xs).1 h.1)),
)

Some-of_any : (p : String → Bool) (xs : List String) → any p xs ≡ true → Some p xs
Some-of_any p [] h = cc
Some-of_any p (x ∷ xs) h = elim (Bool-cases (p x)) [
  | inl y ↦ (x, ground (arith, eq_refl x), y)
  | inr n ↦ let (z, m, q) = Some-of_any p xs (ground arith) in (z, ground arith, q)
]

any_of_Some : (p : String → Bool) (xs : List String) → Some p xs → any p xs ≡ true
any_of_Some p [] (z, m, q) = cc
any_of_Some p (x ∷ xs) (z, m, q) = elim (Bool-cases (x == z)) [
  | inl y ↦ let is : p x ≡ true = subst (λ w. p w ≡ true) (sym ((eq_iff x z).0 y)) q in ground arith
  | inr n ↦ let rest = any_of_Some p xs (z, ground arith, q) in ground arith
]

empty_iff : (xs : List String) → (is_empty xs ≡ true) ↔ (xs ≡ [])
empty_iff [] = ((λ h. refl), (λ h. refl))
empty_iff (x ∷ xs) = ((λ h. cc), (λ h. cc))

-- The tests of a check: it passes if `b` is not so, and `c` or `d` is.
abbrev gated : Bool → Bool → Bool → AccessError → AccessError → Access
gated b c d e f = if b then err e else if c then ok tt else if d then ok tt else err f

gate :
    (b c d : Bool) (e f : AccessError)
    → (gated b c d e f ≡ ok tt) ↔ ((b ≡ false) × ((c ≡ true) ⊎ (d ≡ true)))
gate true c d e f = ((λ h. cc), (λ h. cc))
gate false true d e f = ((λ h. (refl, inl refl)), (λ h. refl))
gate false false true e f = ((λ h. (refl, inr refl)), (λ h. refl))
gate false false false e f = ((λ h. cc), (λ h. elim (h.1) [ inl w ↦ cc | inr w ↦ cc ]))

-- A command is let pass just when no denied text occurs in its executable, and the list of allowed
-- executables is empty or has one that is the executable or the last part of its path.
pub validate_command_lem :
    (ctx : ExecutionContext) (executable : String) (args : List String)
    → (validate_command ctx (executable ∷ args) ≡ ok tt) ↔ (
        All (λ d. contains executable d ≡ false) ctx.process.denied_executables
        × ((ctx.process.allowed_executables ≡ [])
            ⊎ Some (names_executable executable) ctx.process.allowed_executables))
unfolding validate_command
validate_command_lem ctx executable args =
    let denied = ctx.process.denied_executables in
    let allowed = ctx.process.allowed_executables in
    let tests =
      gate (any (contains executable) denied) (is_empty allowed)
        (any (names_executable executable) allowed) _ _ in
    let none_denied = any-none (contains executable) denied in
    let empty = empty_iff allowed in
    (
      (λ h.
          let (free, rest) = tests.0 h in
          (
            none_denied.0 free,
            elim rest [
              | inl e ↦ inl (empty.0 e)
              | inr s ↦ inr (Some-of_any (names_executable executable) allowed s)
            ],
          )),
      (λ h. tests.1 (
        none_denied.1 h.0,
        elim (h.1) [
          | inl e ↦ inl (empty.1 e)
          | inr s ↦ inr (any_of_Some (names_executable executable) allowed s)
        ],
      )),
    )

-- The path has a prefix in the list.
abbrev pub Within : String → List String → Type 0
Within path prefixes = Some (starts_with path) prefixes

-- What the operation asks of the lists of paths.
abbrev pub Permitted : FilesystemConfig → String → FileOperation → Type 0
Permitted fs path op_read =
    ((fs.read_only_paths ≡ []) × (fs.writable_paths ≡ []))
    ⊎ (Within path fs.read_only_paths ⊎ Within path fs.writable_paths)
Permitted fs path op_write =
    ((fs.read_only_paths ≡ []) × (fs.writable_paths ≡ [])) ⊎ Within path fs.writable_paths

validate_operation_sound :
    (fs : FilesystemConfig) (path : String) (op : FileOperation)
    → validate_operation fs path op ≡ ok tt
    → Permitted fs path op
unfolding validate_operation validate_read_path validate_write_path
validate_operation_sound fs path op_read h =
    elim (Bool-cases (is_empty fs.read_only_paths && is_empty fs.writable_paths)) [
      | inl y ↦ inl (
        (empty_iff fs.read_only_paths).0 (ground arith),
        (empty_iff fs.writable_paths).0 (ground arith),
      )
      | inr n ↦ elim (Bool-cases (any (starts_with path) fs.read_only_paths)) [
        | inl r ↦ inr (inl (Some-of_any (starts_with path) fs.read_only_paths r))
        | inr k ↦ elim (Bool-cases (any (starts_with path) fs.writable_paths)) [
          | inl w ↦ inr (inr (Some-of_any (starts_with path) fs.writable_paths w))
          | inr j ↦ let wrong = rw (n, k, j) at h in cc
        ]
      ]
    ]
validate_operation_sound fs path op_write h =
    elim (Bool-cases (is_empty fs.writable_paths && is_empty fs.read_only_paths)) [
      | inl y ↦ inl (
        (empty_iff fs.read_only_paths).0 (ground arith),
        (empty_iff fs.writable_paths).0 (ground arith),
      )
      | inr n ↦ elim (Bool-cases (is_empty fs.writable_paths)) [
        | inl e ↦ let wrong = rw (n, e) at h in cc
        | inr k ↦ elim (Bool-cases (any (starts_with path) fs.writable_paths)) [
          | inl w ↦ inr (Some-of_any (starts_with path) fs.writable_paths w)
          | inr j ↦ let wrong = rw (n, k, j) at h in cc
        ]
      ]
    ]

-- When a file operation is let pass, the path resolves, no denied path is a prefix of the result,
-- and the lists of paths permit the operation; writing is permitted only below writable paths
-- unless the context lists no paths at all.
pub validate_file_path_sound :
    (abs : String → Option String) (fs : FilesystemConfig) (path : String) (op : FileOperation)
    → validate_file_path abs fs path op ≡ ok tt
    → (full : String) × (abs path ≡ some full)
      × All (λ d. starts_with full d ≡ false) fs.denied_paths
      × Permitted fs full op
unfolding validate_file_path
validate_file_path_sound abs fs path op h = elim (Option-cases (abs path)) [
  | inl n ↦ let wrong = rw (n, validate_file_path) at h in cc
  | inr (full, y) ↦ elim (Bool-cases (any (starts_with full) fs.denied_paths)) [
    | inl d ↦ let wrong = rw (y, d, validate_file_path) at h in cc
    | inr d ↦
        let passed : validate_operation fs full op ≡ ok tt = rw (y, d, validate_file_path) at h in
        (
          full,
          y,
          (any-none (starts_with full) fs.denied_paths).0 d,
          validate_operation_sound fs full op passed,
        )
  ]
]
