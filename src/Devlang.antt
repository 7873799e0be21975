-- ===== src/Devlang.antt =====
-- internal/devlang: the language of plans.
pub mod Parser
pub mod Lexer
pub mod Ast
pub mod Comp
pub mod Decl
pub mod Types
pub mod Eval
pub mod Validate
pub mod Lower
pub mod Compile
pub mod Steps
pub mod Substitute
pub mod Unroll
pub mod Loops
pub mod Tests
