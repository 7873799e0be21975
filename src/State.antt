-- ===== src/State.antt =====
-- internal/state/store.go: the append-only table of executions.
pub mod Store
pub mod Tests
