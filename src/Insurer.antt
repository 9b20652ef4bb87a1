-- ===== src/Insurer.antt =====
-- The insurer: systems/alt_insurer.
pub mod Premium
pub mod Service
mod Tests
