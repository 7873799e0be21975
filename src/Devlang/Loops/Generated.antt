-- ===== src/Devlang/Loops/Generated.antt =====
-- The names that the loops of a file generate, from its declarations.
use Prim.Native.String as Text
use dotdevops.Prelude.{String, Option, some, List, [], ◌∷◌, ◌++◌, get?, Option-cases, inl, inr}
use dotdevops.Devlang.Ast.{Expr, Exprs, LetEnv, ident, str, list, nil, cons}
use dotdevops.Devlang.Decl.{Decl, Decls, node_decl, for_decl, decl}
use dotdevops.Devlang.Decl as Decl
use dotdevops.Devlang.Validate.{resolve_let}
use dotdevops.Devlang.Substitute.Replaced.{Replaces, substitute-Replaces}
use dotdevops.Devlang.Unroll.{for_loops}
use dotdevops.Devlang.Unroll.Names.{body_names, elem_names, range_names, loop_names}

-- A loop's variable, an element of its range, and the name of a node of its body.
pub record Round : Type 0 where
  pub var_name : String
  pub value : String
  pub name : String

abbrev body_rounds : String → String → Decls → List Round
body_rounds x v Decl.end = []
body_rounds x v (decl (node_decl n) ds) =
    record { var_name = x; value = v; name = n.name } ∷ body_rounds x v ds
body_rounds x v (decl d ds) = body_rounds x v ds

abbrev elem_rounds : String → Decls → Exprs → List Round
elem_rounds x body nil = []
elem_rounds x body (cons (str v) es) = body_rounds x v body ++ elem_rounds x body es
elem_rounds x body (cons e es) = elem_rounds x body es

abbrev range_rounds : String → Decls → Option Expr → List Round
range_rounds x body (some (list es)) = elem_rounds x body es
range_rounds x body o = []

-- A range, or the value of the let that it names.
abbrev range_value : LetEnv → Expr → Option Expr
range_value lets (ident y) = get? y lets
range_value lets e = some e

-- The rounds of all loops of a file: loop by loop, element by element, node by node.
abbrev pub rounds : LetEnv → List Decl → List Round
rounds lets [] = []
rounds lets (for_decl x e body ∷ ds) = range_rounds x body (range_value lets e) ++ rounds lets ds
rounds lets (d ∷ ds) = rounds lets ds

-- Each name is that of its round, with the value in place of the variable's placeholders.
abbrev pub IsNamed : List Round → List String → Type 0
IsNamed [] [] = Unit
IsNamed (r ∷ rs) (n ∷ ns) =
    Replaces (Text.◌++◌ "${" (Text.◌++◌ r.var_name "}")) r.value r.name n × IsNamed rs ns
IsNamed _ _ = ⊥

append-IsNamed :
    (rs qs : List Round) (ns ms : List String)
    → IsNamed rs ns
    → IsNamed qs ms
    → IsNamed (rs ++ qs) (ns ++ ms)
append-IsNamed [] qs [] ms h k = k
append-IsNamed (r ∷ rs) qs (n ∷ ns) ms h k = (h.0, append-IsNamed rs qs ns ms h.1 k)
append-IsNamed rs qs ns ms h k = absurd h

body-IsNamed : (x v : String) (ds : Decls) → IsNamed (body_rounds x v ds) (body_names x v ds)
body-IsNamed x v Decl.end = tt
body-IsNamed x v (decl (node_decl n) ds) = (substitute-Replaces x v n.name, body-IsNamed x v ds)
body-IsNamed x v (decl d ds) = body-IsNamed x v ds

elem-IsNamed :
    (x : String) (body : Decls) (es : Exprs)
    → IsNamed (elem_rounds x body es) (elem_names x body es)
elem-IsNamed x body nil = tt
elem-IsNamed x body (cons (str v) es) =
    append-IsNamed (body_rounds x v body) (elem_rounds x body es) (body_names x v body)
      (elem_names x body es) (body-IsNamed x v body) (elem-IsNamed x body es)
elem-IsNamed x body (cons e es) = elem-IsNamed x body es

value-IsNamed :
    (x : String) (body : Decls) (e : Expr)
    → IsNamed (range_rounds x body (some e)) (range_names x body e)
value-IsNamed x body (list es) = elem-IsNamed x body es
value-IsNamed x body e = tt

range-IsNamed :
    (x : String) (body : Decls) (lets : LetEnv) (e : Expr)
    → IsNamed (range_rounds x body (range_value lets e)) (range_names x body (resolve_let lets e))
unfolding resolve_let
range-IsNamed x body lets (ident y) = elim (Option-cases (get? y lets)) [
  | inl e ↦ rw (e, resolve_let) tt
  | inr (c, e) ↦ rw (e, resolve_let) (value-IsNamed x body c)
]
range-IsNamed x body lets e = value-IsNamed x body e

pub loops-IsNamed :
    (lets : LetEnv) (ds : List Decl) → IsNamed (rounds lets ds) (loop_names lets (for_loops ds))
unfolding for_loops
loops-IsNamed lets [] = tt
loops-IsNamed lets (for_decl x e body ∷ ds) =
    append-IsNamed (range_rounds x body (range_value lets e)) (rounds lets ds)
      (range_names x body (resolve_let lets e)) (loop_names lets (for_loops ds))
      (range-IsNamed x body lets e) (loops-IsNamed lets ds)
loops-IsNamed lets (d ∷ ds) = loops-IsNamed lets ds
