-- ===== src/Devlang/Compile/Tests.antt =====
-- A file with a step and a process, and what the compilers make of it.
use dotdevops.Prelude.{
  ℕ, String, ◌≡◌, refl, false, ◌==◌, subst, none, some, List, [], ◌∷◌, arith, get?, Bool-cases, inl,
  inr, ◌≤◌,
}
use dotdevops.Json.{Value, Values, slice, item, end, field}
use dotdevops.Json as Json
use dotdevops.Plan.Schema.{Node, Plan}
use dotdevops.Devlang.Ast.{Expr, LetEnv, ident, list, cons, nil, binary, op_add}
use dotdevops.Devlang.Ast as Ast
use dotdevops.Devlang.Types.{type_check}
use dotdevops.Devlang.Eval.{eval}
use dotdevops.Controller.Compare.{value_at}
use dotdevops.Plan.Validate.{cmd_required, validate}
use dotdevops.Devlang.Comp.{ok, err}
use dotdevops.Devlang.Decl.{
  NodeDecl, StepDecl, Decl, target_decl, node_decl, let_decl, step_decl, version_decl,
}
use dotdevops.Devlang.Validate.{Steps, symbols, rejected, nil_pointer, unknown_type}
use dotdevops.Devlang.Validate.Accepted.{Visits}
use dotdevops.Devlang.Validate.Versions.{validate_v0_3, validate_v0_4, check_primitive_nodes}
use dotdevops.Devlang.Validate.Tables.{AllNodes}
use dotdevops.Devlang.Lower.{lower_expr, lower_v0_4, lower_node, or_else, or_empty}
use dotdevops.Devlang.Lower.Inputs.{Lowered}
use dotdevops.Devlang.Lower.Total.{IsValue}
use dotdevops.Devlang.Lower.Returns.{AreInputs}
use dotdevops.Devlang.Lower.Nodes.{lower_node-instance}
use dotdevops.Devlang.Lower.Whole.{lower_v0_4-Returns}
use dotdevops.Devlang.Compile.{compile_v0_4, auto_detect, mismatched, version_rank, invalid_plan}
use dotdevops.Devlang.Compile.Sound.{Outcome, compile_v0_4-Outcome}

abbrev visit : List String → List String
visit ks = ks

visit-Visits : Visits visit
visit-Visits ks x = refl

-- fmt.Sprintf on the strings of the tests.
abbrev format : Value → String
format (Json.str s) = s
format v = ""

abbrev node : String → String → List (String × Expr) → NodeDecl
node name type inputs = record {
  name = name;
  type = some type;
  targets = "web" ∷ [];
  depends_on = [];
  failure_policy = none;
  inputs = inputs;
  idempotent = none;
  side_effects = none;
  retry = none;
  rollback_cmd = none;
}

abbrev restart : StepDecl
restart = record {
  name = "restart";
  params = [];
  body =
      record (node "" "process.exec" (
        ("cmd", list (cons (Ast.str "systemctl") (cons (ident "unit") nil)))
        ∷ ("cwd", Ast.str "/")
        ∷ [])) { targets = []; failure_policy = some "continue" };
}

abbrev reload : NodeDecl
reload = node "reload" "restart" (("cwd", binary op_add (Ast.str "/srv/") (ident "unit")) ∷ [])

abbrev web : Decl
web = target_decl (record { name = "web"; address = some "10.0.0.1:7700"; labels = [] })

abbrev file : List Decl
file =
    version_decl "v0.4"
    ∷ web
    ∷ let_decl (record { name = "unit"; value = Ast.str "nginx" })
    ∷ step_decl restart
    ∷ node_decl
        (record (node "list" "process.exec" (("cmd", list (cons (Ast.str "ls") nil)) ∷ [])) {
          depends_on = "reload" ∷ [];
        })
    ∷ node_decl reload
    ∷ []

abbrev lets : LetEnv
lets = ("unit", Ast.str "nginx") ∷ []

abbrev steps : Steps
steps = ("restart", restart) ∷ []

file-accepted : validate_v0_4 5 visit file ≡ ok (lets, steps)
unfolding validate_v0_4 type_check eval symbols
file-accepted = refl

-- The instance of the step: its own directory, the command of the step.
abbrev reloading : Node
reloading = record {
  id = "reload";
  type = "process.exec";
  targets = "web" ∷ [];
  depends_on = [];
  when = none;
  failure_policy = "continue";
  inputs =
      field "cmd" (slice (item (Json.str "systemctl") (item (Json.str "nginx") Values.none)))
        (field "cwd" (Json.str "/srv/nginx") end);
  idempotent = false;
  side_effects = "";
  retry = none;
  rollback_cmd = [];
  requires_secrets = [];
  probe = none;
  desired = none;
}

reload-lowered : lower_node format 5 visit lets steps reload ≡ ok reloading
unfolding lower_node
reload-lowered = refl

lower_node-instance_example :
    (some "process.exec" ≡ restart.body.type)
    × (reloading.targets ≡ reload.targets)
    × (reloading.depends_on ≡ reload.depends_on)
    × (reloading.failure_policy
        ≡ or_empty (or_else reload.failure_policy restart.body.failure_policy))
    × ((k : String)
        → Lowered
            (lower_expr format 5 lets)
            (or_else (get? k reload.inputs) (get? k restart.body.inputs))
            (value_at k reloading.inputs))
lower_node-instance_example =
    lower_node-instance format 5 visit lets steps reload restart "restart" {p = reloading}
      visit-Visits refl refl (refl, tt) (refl, (refl, tt)) reload-lowered

compile_v0_4-Outcome_example : Outcome file (compile_v0_4 format 5 visit file)
compile_v0_4-Outcome_example = compile_v0_4-Outcome format 5 visit file visit-Visits

file-inputs : AllNodes (λ n. AreInputs lets n.inputs) file
unfolding IsValue
file-inputs = (((tt, tt), tt), ((((tt, refl), tt), tt)))

step-inputs : (x : String) (s : StepDecl) → get? x steps ≡ some s → AreInputs lets s.body.inputs
unfolding IsValue
step-inputs x s e = elim (Bool-cases ("restart" == x)) [
  | inl y ↦
      let is : restart ≡ s = ground arith in
      subst (λ (r : StepDecl). AreInputs lets r.body.inputs) is ((tt, (refl, tt)), (tt, tt))
  | inr n ↦ absurd (ground arith)
]

lower_v0_4-Returns_example :
    (p : Plan) × (k : ℕ) × ((f : ℕ) → k ≤ f → lower_v0_4 format f visit lets steps file ≡ ok p)
lower_v0_4-Returns_example =
    lower_v0_4-Returns format 5 visit file visit-Visits file-accepted ((λ e. cc), tt) file-inputs
      step-inputs

-- A file with a step is not handed to version 0.3.
file_without_version :
    auto_detect "v0.3" (step_decl restart ∷ [])
    ≡ mismatched (record { construct = "step"; version = "v0.4"; declared = false } ∷ [])
unfolding auto_detect version_rank
file_without_version = refl

-- Version 0.3 reads the type of a node that has none.
untyped :
    validate_v0_3 5 visit (web ∷ node_decl (record reload { type = none }) ∷ []) ≡ err nil_pointer
unfolding validate_v0_3 check_primitive_nodes symbols
untyped = refl

-- Version 0.3 knows package.install, version 0.4 does not.
abbrev install : List Decl
install = web ∷ node_decl (node "install" "package.install" []) ∷ []

installed :
    (validate_v0_3 5 visit install ≡ ok [])
    × (validate_v0_4 5 visit install ≡ err (rejected (unknown_type "package.install" ∷ [])))
unfolding validate_v0_3 validate_v0_4 check_primitive_nodes symbols
installed = (refl, refl)

-- A step without a command is found by the validation of the plan only.
abbrev idle : List Decl
idle =
    web
    ∷ step_decl (record restart { body = record restart.body { inputs = [] } })
    ∷ node_decl (record reload { inputs = [] })
    ∷ []

step_without_cmd :
    compile_v0_4 format 5 visit idle ≡ err (invalid_plan (cmd_required 0 "reload" ∷ []))
unfolding compile_v0_4 validate_v0_4 symbols lower_v0_4 validate
step_without_cmd = refl
