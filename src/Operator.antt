-- ===== src/Operator.antt =====
-- systems/operator: the company that flies drones.
pub mod Fleet
pub mod Security
pub mod Planner
pub mod Desk
pub mod Economics
pub mod Proposals
