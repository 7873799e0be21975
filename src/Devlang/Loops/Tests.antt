-- ===== src/Devlang/Loops/Tests.antt =====
-- A file with a loop over a step, and a step that no plan comes of.
use dotdevops.Prelude.{String, ◌≡◌, refl, none, some, List, [], ◌∷◌}
use dotdevops.Json.{Value}
use dotdevops.Json as Json
use dotdevops.Plan.Schema.{Plan, ids}
use dotdevops.Plan.Validate.{validate}
use dotdevops.Plan.Validate.Valid.{IsValid}
use dotdevops.Devlang.Ast.{Expr, LetEnv, ident, str, list, cons, nil}
use dotdevops.Devlang.Types.{type_check}
use dotdevops.Devlang.Eval.{eval}
use dotdevops.Devlang.Comp.{Comp, ok, err}
use dotdevops.Devlang.Decl.{
  NodeDecl, Decl, target_decl, node_decl, let_decl, for_decl, step_decl, end, decl,
}
use dotdevops.Devlang.Validate.{Steps, symbols}
use dotdevops.Devlang.Lower.{merge, lower_expr}
use dotdevops.Devlang.Steps.{unknown_step}
use dotdevops.Devlang.Substitute.{substitute}
use dotdevops.Devlang.Unroll.{ForDecl, not_expanded}
use dotdevops.Devlang.Loops.{LoopError, not_unrolled, validate_v0_5, compile_v0_5}
use dotdevops.Devlang.Loops.Sound.{HasNames, compile_v0_5-HasNames}

abbrev same : List String → List String
same ks = ks

-- fmt.Sprintf on the strings of the tests.
abbrev format : Value → String
format (Json.str s) = s
format v = ""

abbrev node : String → String → List String → List (String × Expr) → NodeDecl
node name type targets inputs = record {
  name = name;
  type = some type;
  targets = targets;
  depends_on = [];
  failure_policy = none;
  inputs = inputs;
  idempotent = none;
  side_effects = none;
  retry = none;
  rollback_cmd = none;
}

abbrev web : Decl
web = target_decl (record { name = "web"; address = some "h:1"; labels = [] })

abbrev file : List Decl
file =
    web
    ∷ let_decl (record { name = "users"; value = list (cons (str "ann") (cons (str "bob") nil)) })
    ∷ step_decl (record {
      name = "greet";
      params = [];
      body =
          node "" "process.exec" []
            (("cmd", list (cons (str "echo") (cons (str "hi") nil))) ∷ ("cwd", str "/") ∷ []);
    })
    ∷ for_decl "u" (ident "users") (
        decl (node_decl (node "to-${u}" "greet" ("web" ∷ []) (("cwd", str "/home/${u}") ∷ []))) end)
    ∷ []

substitute_twice : substitute "u" "ann" "${u}-${v}-${u}" ≡ "ann-${v}-ann"
unfolding substitute
substitute_twice = refl

plan_of : Comp LoopError Plan → Plan
plan_of (ok p) = p
plan_of r = record { version = ""; targets = []; nodes = [] }

abbrev compiled : Plan
unfolding plan_of compile_v0_5 type_check eval validate
compiled = plan_of (compile_v0_5 format 9 same same file)

compiled_names : ids compiled.nodes ≡ "to-ann" ∷ "to-bob" ∷ []
unfolding plan_of compile_v0_5 type_check eval validate symbols merge lower_expr substitute
compiled_names = refl

-- A step of a type that the validation knows and the expansion does not.
abbrev unexpanded : List Decl
unexpanded =
    web
    ∷ step_decl (record { name = "probe"; params = []; body = node "" "health.check" [] [] })
    ∷ node_decl (node "n" "probe" ("web" ∷ []) [])
    ∷ []

health_step :
    compile_v0_5 format 9 same same unexpanded
    ≡ err (not_unrolled (not_expanded (unknown_step "probe" "health.check")))
unfolding compile_v0_5 symbols
health_step = refl

compiled-ok : compile_v0_5 format 9 same same file ≡ ok compiled
unfolding plan_of compile_v0_5 type_check eval validate symbols merge lower_expr substitute
compiled-ok = refl

compile_v0_5-HasNames_example :
    (lets : LetEnv) × (steps : Steps) × (loops : List ForDecl) × (validate_v0_5 9 same same file
      ≡ ok (lets, steps, loops))
    × IsValid compiled
    × HasNames file lets compiled
compile_v0_5-HasNames_example = compile_v0_5-HasNames format 9 same same file compiled-ok
