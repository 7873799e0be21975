-- ===== src/Devlang/Decl.antt =====
-- The declarations of internal/devlang/ast.go, without their source positions. `none` is a nil
-- pointer. A map that stands in a declaration is the list of its entries, each key once.
use dotdevops.Prelude.{ℕ, String, Bool, Option, List}
use dotdevops.Devlang.Ast.{Expr, Exprs}

pub record TargetDecl : Type 0 where
  pub name : String
  pub address : Option String
  pub labels : List (String × String)

-- `matches` is the field Match: all its pairs must be among the labels.
pub record FleetDecl : Type 0 where
  pub name : String
  pub matches : List (String × String)

pub record RetryConfig : Type 0 where
  pub attempts : ℕ
  pub delay : String

pub record NodeDecl : Type 0 where
  pub name : String
  pub type : Option String
  pub targets : List String
  pub depends_on : List String
  pub failure_policy : Option String
  pub inputs : List (String × Expr)
  pub idempotent : Option Bool
  pub side_effects : Option String
  pub retry : Option RetryConfig
  pub rollback_cmd : Option Exprs

pub record LetDecl : Type 0 where
  pub name : String
  pub value : Expr

pub record ParamDecl : Type 0 where
  pub name : String
  pub default : Option Expr

pub record StepDecl : Type 0 where
  pub name : String
  pub params : List ParamDecl
  pub body : NodeDecl

pub record PrimitiveInputDecl : Type 0 where
  pub name : String
  pub type : Option String

pub record ContractDecl : Type 0 where
  pub idempotent : Option Bool
  pub side_effects : Option String
  pub retry : Option ℕ

-- A name with an expression: a ProbeField, a DesiredField or a PrepareBinding.
pub record Binding : Type 0 where
  pub name : String
  pub expr : Expr

pub record ImportDecl : Type 0 where
  pub path : String
  pub alias : String

pub record FnDecl : Type 0 where
  pub name : String
  pub params : List String
  pub body : Expr

mutual
  pub data Decl : Type 0 where
    version_decl : String → Decl
    target_decl : TargetDecl → Decl
    fleet_decl : FleetDecl → Decl
    node_decl : NodeDecl → Decl
    let_decl : LetDecl → Decl
    -- the variable, the range and the body
    for_decl : String → Expr → Decls → Decl
    foreach_body_decl : String → Expr → Decls → Decl
    step_decl : StepDecl → Decl
    -- the name, the inputs, prepare, the body, contract, probe and desired
    primitive_decl :
        String
        → List PrimitiveInputDecl
        → Option (List Binding)
        → Decls
        → Option ContractDecl
        → Option (List Binding)
        → Option (List Binding)
        → Decl
    module_decl : String → Decls → Decl
    import_decl : ImportDecl → Decl
    fn_decl : FnDecl → Decl

  pub data Decls : Type 0 where
    end : Decls
    decl : Decl → Decls → Decls
