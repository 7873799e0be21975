-- ===== src/Agent.antt =====
-- internal/agent: the enforcement of execution contexts.
pub mod Context
pub mod Tests
