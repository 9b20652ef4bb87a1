-- ===== src/Operator/Planner.antt =====
-- The mission planner: systems/operator/src/mission_planner.
pub mod Plan
pub mod Core
pub mod Route
pub mod Service
pub mod Lifecycle
