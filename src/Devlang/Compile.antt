-- ===== src/Devlang/Compile.antt =====
-- internal/devlang/validate.go: CompileFileV0_1 to CompileFileV0_4 behind the parser, and the
-- choice of the compiler in CompileFileAutoDetect. The JSON of the plan is left out.
pub mod Left
pub mod Sound
pub mod Detect
pub mod Tests
use dotdevops.Prelude.{
  ℕ, String, Bool, ◌==◌, ◌||◌, not, Option, none, some, List, [], ◌∷◌, ◌++◌, get?, ltb,
  if◌then◌else◌,
}
use dotdevops.Json.{Value}
use dotdevops.Plan.Schema.{Plan}
use dotdevops.Plan.Validate as Ir
use dotdevops.Plan.Validate.{validate}
use dotdevops.Devlang.Comp.{Comp, ok, err, no_fuel, ◌>>=◌}
use dotdevops.Devlang.Decl.{
  Decl, version_decl, import_decl, fn_decl, primitive_decl, fleet_decl, step_decl, for_decl,
}
use dotdevops.Devlang.Validate.{Failure}
use dotdevops.Devlang.Validate.Versions.{validate_v0_1, validate_v0_2, validate_v0_3, validate_v0_4}
use dotdevops.Devlang.Lower.{LowerError, lower_expr_v0_1, lower_expr, lower_v0_4, lower_flat}

-- The errors of the language, of the lowering and of the plan.
pub data CompileError : Type 0 where
  refused : Failure → CompileError
  not_lowered : LowerError → CompileError
  invalid_plan : List Ir.Problem → CompileError

abbrev pub lift {ℓ κ μ} : {E : Type ℓ} {F : Type κ} {A : Type μ} → (E → F) → Comp E A → Comp F A
lift f (ok a) = ok a
lift f (err e) = err (f e)
lift f no_fuel = no_fuel

-- if vErrs := plan.Validate(p); len(vErrs) > 0
unfoldable pub checked_plan : Plan → Comp CompileError Plan
checked_plan p = elim (validate p) [ [] ↦ ok p | e ∷ es ↦ err (invalid_plan (e ∷ es)) ]

module _ (format : Value → String) (fuel : ℕ) (visit : List String → List String) where
  unfoldable pub compile_v0_1 : List Decl → Comp CompileError Plan
  unfolding checked_plan
  compile_v0_1 ds = lift refused (validate_v0_1 visit ds) >>= λ lets.
      lift not_lowered (lower_flat lower_expr_v0_1 visit ds) >>= checked_plan

  unfoldable pub compile_v0_2 : List Decl → Comp CompileError Plan
  unfolding checked_plan
  compile_v0_2 ds = lift refused (validate_v0_2 visit ds) >>= λ lets.
      lift not_lowered (lower_flat (lower_expr format fuel lets) visit ds) >>= checked_plan

  unfoldable pub compile_v0_3 : List Decl → Comp CompileError Plan
  unfolding checked_plan
  compile_v0_3 ds = lift refused (validate_v0_3 fuel visit ds) >>= λ lets.
      lift not_lowered (lower_flat (lower_expr format fuel lets) visit ds) >>= checked_plan

  unfoldable pub compile_v0_4 : List Decl → Comp CompileError Plan
  unfolding checked_plan
  compile_v0_4 ds = lift refused (validate_v0_4 fuel visit ds) >>= λ (lets, steps).
      lift not_lowered (lower_v0_4 format fuel visit lets steps ds) >>= checked_plan

-- versionRank
abbrev pub version_ranks : List (String × ℕ)
version_ranks =
    ("v0.1", 1)
    ∷ ("v0.2", 2)
    ∷ ("v0.3", 3)
    ∷ ("v0.4", 4)
    ∷ ("v0.5", 5)
    ∷ ("v0.6", 6)
    ∷ ("v0.7", 7)
    ∷ ("v0.8", 8)
    ∷ ("v0.9", 9)
    ∷ ("v1.2", 12)
    ∷ ("v1.3", 13)
    ∷ ("v1.4", 14)
    ∷ ("v2.0", 20)
    ∷ []

-- A missing version reads as 0.
unfoldable pub version_rank : String → ℕ
version_rank v = elim (get? v version_ranks) [ none ↦ 0 | some r ↦ r ]

-- A construct that needs a later version, and whether the hint is to change the declared version.
pub record Mismatch : Type 0 where
  pub construct : String
  pub version : String
  pub declared : Bool

module _ (current : ℕ) (declared : Bool) where
  unfoldable pub needs : String → String → List Mismatch
  unfolding version_rank
  needs construct version =
      if ltb current (version_rank version)
      then record { construct = construct; version = version; declared = declared } ∷ []
      else []

  unfoldable pub mismatch : Decl → List Mismatch
  unfolding needs
  mismatch (import_decl i) = needs "import" "v2.0"
  mismatch (fn_decl f) = needs "fn" "v2.0"
  mismatch (primitive_decl x i p b c o d) = needs "primitive" "v1.2"
  mismatch (fleet_decl f) = needs "fleet" "v0.8"
  mismatch (step_decl s) = needs "step" "v0.4"
  mismatch (for_decl x e b) = needs "for" "v0.5"
  mismatch d = []

  -- checkVersionMismatch
  unfoldable pub check_version_mismatch : List Decl → List Mismatch
  unfolding mismatch
  check_version_mismatch [] = []
  check_version_mismatch (d ∷ ds) = mismatch d ++ check_version_mismatch ds

-- ExtractVersion
unfoldable pub extract_version : List Decl → String
extract_version (version_decl v ∷ ds) = v
extract_version ds = ""

-- CompileFileV0_1 and its later versions
pub data Compiler : Type 0 where
  v0_1 v0_2 v0_3 v0_4 v0_5 v0_6 v0_8 v1_2 v2_0 : Compiler

-- the switch on the version
unfoldable pub compiler_of : String → Option Compiler
compiler_of v =
    if v == "v0.1"
    then some v0_1
    else if v == "v0.2"
    then some v0_2
    else if v == "v0.3"
    then some v0_3
    else if v == "v0.4"
    then some v0_4
    else if v == "v0.5"
    then some v0_5
    else if v == "v0.6"
    then some v0_6
    else if (v == "v0.7" || v == "v0.8") || v == "v0.9"
    then some v0_8
    else if (v == "v1.2" || v == "v1.3") || v == "v1.4"
    then some v1_2
    else if v == "v2.0"
    then some v2_0
    else none

pub data Detected : Type 0 where
  mismatched : List Mismatch → Detected
  unknown_version : String → Detected
  compiled_by : Compiler → Detected

abbrev pub effective : String → String → String
effective declared default = if declared == "" then default else declared

abbrev pub dispatched : String → Option Compiler → Detected
dispatched v none = unknown_version v
dispatched v (some c) = compiled_by c

abbrev pub or_mismatched : List Mismatch → Detected → Detected
or_mismatched [] d = d
or_mismatched (m ∷ ms) d = mismatched (m ∷ ms)

-- CompileFileAutoDetect, up to the compiler that it calls
unfoldable pub auto_detect : String → List Decl → Detected
unfolding check_version_mismatch extract_version compiler_of
auto_detect default ds =
    let v = effective (extract_version ds) default in
    or_mismatched (check_version_mismatch (version_rank v) (not (extract_version ds == "")) ds)
      (dispatched v (compiler_of v))
