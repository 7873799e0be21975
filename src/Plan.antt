-- ===== src/Plan.antt =====
-- internal/plan: the plan that the compiler emits and the controller runs, and its checks.
pub mod Schema
pub mod Validate
pub mod Diff
pub mod Tests
