-- ===== src/Sdk.antt =====
-- sdk: what the components of all systems are built from.
pub mod Message
pub mod Component
pub mod SafeBus
pub mod Wpl
mod Tests
