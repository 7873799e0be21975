-- ===== src/Controller.antt =====
-- internal/controller: the execution graph and the orchestrator.
pub mod Rollback
pub mod Graph
pub mod Run
pub mod Compare
pub mod Node
pub mod Target
pub mod Tests
