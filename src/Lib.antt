-- ===== src/Lib.antt =====
-- devopsctl: the controller that runs plans on agents, the language of plans, and what the
-- agents enforce.
--
-- A plan is compiled from the language (internal/devlang), a list of nodes with targets
-- and dependencies (internal/plan). The controller (internal/controller) builds the
-- dependency graph and runs the nodes in its order. For each target of a node it consults
-- the history (internal/state), resolves secrets (internal/secret), asks the agent for the
-- state of the host, computes the changes (internal/primitive/filesync) and sends them
-- (internal/proto). The agent runs commands and file operations inside an execution
-- context (internal/agent/context).
--
-- Controller/Graph.antt is internal/controller/graph.go: `build_graph` is BuildGraph and
-- `detect_cycles` is detectCycles. Controller/Run.antt is the scheduler in Run of
-- internal/controller/orchestrator.go: the state that the goroutines share is `RunState`,
-- the work of a goroutine under the mutex is one `Step`, and `Reach` is a run under any
-- order of the steps. Controller/Target.antt is the goroutine of one target,
-- Controller/Node.antt with its children Primitives and Dispatch is runNode, runFileSync,
-- runProcessExec, runBuiltin and runProbe: a call returns the messages sent, the
-- executions recorded and its results. Controller/Compare.antt is compareState and
-- deepEqual, Controller/Rollback.antt is RollbackLast. State/Store.antt is
-- internal/state/store.go. FileSync/Diff.antt, FileSync/Apply.antt and
-- FileSync/Rollback.antt are diff.go, apply.go and rollback.go of
-- internal/primitive/filesync, on the disk of FileSync/Disk.antt, and FileSync/Stream.antt
-- is streamFiles; `sync` of FileSync/Contents.antt puts the two ends of the connection
-- together. Secret.antt is internal/secret/secret.go. The files validate.go and diff.go of
-- internal/plan are Plan/Validate.antt and Plan/Diff.antt. Devlang/Lexer.antt is
-- internal/devlang/lexer.go and Devlang/Parser.antt parseExpr of parser.go.
-- Devlang/Ast.antt, Devlang/Types.antt and Devlang/Eval.antt are the expressions of
-- internal/devlang/ast.go, typeCheckExpr and evaluateExpr, and Devlang/Decl.antt its
-- declarations. Devlang/Validate.antt and its child Versions are ValidateV0_1 to
-- ValidateV0_4 of validate.go, Devlang/Lower.antt is LowerToPlan to LowerToPlanV0_4 of
-- lower.go, and Devlang/Compile.antt has the compilers of these versions behind the parser
-- and the choice of a compiler by CompileFileAutoDetect. Devlang/Steps.antt has the nested
-- steps of version 0.5: detectStepCycles of validate.go, and expandStepRecursive with
-- expandNodeWithSteps of lower.go. Devlang/Unroll.antt is LowerToPlanV0_5 with
-- lowerNodeToPlan, Devlang/Substitute.antt its substituteInString, and Devlang/Loops.antt
-- ValidateV0_5 with the compiler of that version. Agent/Context.antt and its children
-- Loader, Requirements and Executor are internal/agent/context. The records of
-- internal/proto/messages.go and internal/plan/schema.go have their types in Proto.antt
-- and Plan/Schema.antt, and the values that encoding/json decodes are in Json.antt.
-- Prelude.antt has the helpers that all share.
--
-- Go's int is the ℤ of Prelude/Int.antt where the program counts with it, without a bound:
-- the counts stay below the sizes of lists in memory. A map that a `range` loop visits is
-- an association list in the order of the visit, which is an argument; a map that is only
-- read is a function. Kahn's loop runs on fuel of one more than the number of nodes, which
-- is enough since each round takes a node of its own. The type checker, the evaluation and
-- the lowering of expressions run on fuel for the depth of their calls, since a let is
-- followed to its expression each time it is read. The search for cycles of steps runs on
-- fuel for the depth of its calls, of which as much as there are names is enough, and the
-- substitution of a loop's variable on one more than the characters of the text, since
-- each round takes a placeholder from it.
--
-- Parameters of the model, and no part of it: encoding/json, SQLite beyond an ordered
-- table, SHA-256, float64 equality, reflect.DeepEqual, the connection and the answers of
-- the agents, the environment, filepath, sort.Strings, fmt.Sprintf of a value, and which
-- calls of the operating system fail. The loops of the agent's work on files and of the
-- lexer are structural: they need no fuel. The parser runs on fuel for its calls. Not
-- modelled: the declarations in the parser, import resolution, and the validation and
-- lowering of the versions from 0.6 on in internal/devlang, the agent's handlers and
-- builtins, Detect, cmd/devopsctl, internal/lsp and internal/pki. What is printed is
-- modelled nowhere.
mod Prelude
pub mod Json
pub mod Proto
pub mod State
pub mod FileSync
pub mod Devlang
pub mod Plan
pub mod Controller
pub mod Agent
pub mod Secret
