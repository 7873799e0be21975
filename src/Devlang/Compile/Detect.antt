-- ===== src/Devlang/Compile/Detect.antt =====
-- The declarations of a file that CompileFileAutoDetect hands on, and the compiler that gets them.
use dotdevops.Prelude.{ℕ, String, ◌≡◌, Bool, true, ◌&&◌, ◌||◌, some, ltb, leb}
use dotdevops.Devlang.Decl.{
  Decl, fleet_decl, for_decl, step_decl, primitive_decl, import_decl, fn_decl,
}
use dotdevops.Devlang.Compile.{
  version_rank, Compiler, v0_1, v0_2, v0_3, v0_4, v0_5, v0_6, v0_8, v1_2, v2_0, compiler_of,
}

-- The compilers in the order of their versions.
abbrev age : Compiler → ℕ
age v0_1 = 1
age v0_2 = 2
age v0_3 = 3
age v0_4 = 4
age v0_5 = 5
age v0_6 = 6
age v0_8 = 7
age v1_2 = 8
age v2_0 = 9

abbrev is_from : Compiler → Compiler → Bool
is_from first c = leb (age first) (age c)

-- The compiler is of a version from the one on that brought the construct in. Other declarations
-- are in the language from the start, or are not looked at.
abbrev pub offers : Compiler → Decl → Bool
offers c (import_decl i) = is_from v2_0 c
offers c (fn_decl f) = is_from v2_0 c
offers c (primitive_decl x i p b k o d) = is_from v1_2 c
offers c (fleet_decl f) = is_from v0_8 c
offers c (for_decl x e b) = is_from v0_5 c
offers c (step_decl s) = is_from v0_4 c
offers c d = true

abbrev covers : String → Compiler → String → Compiler → Bool
covers v c w first = ltb (version_rank v) (version_rank w) || is_from first c

-- A version of at least the rank that a construct asks for has a compiler that knows it.
abbrev agrees : String → Compiler → Bool
agrees v c =
    (covers v c "v2.0" v2_0 && covers v c "v1.2" v1_2)
    && (covers v c "v0.8" v0_8 && (covers v c "v0.5" v0_5 && covers v c "v0.4" v0_4))

Agreeing : String → Type 0
Agreeing v = (c : Compiler) → compiler_of v ≡ some c → agrees v c ≡ true
