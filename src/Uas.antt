-- ===== src/Uas.antt =====
-- systems/uas_dev_company: the company that certifies firmware, registers drones and sells them.
pub mod Roles
pub mod Journal
pub mod Auth
pub mod Tokens
pub mod Analytics
pub mod Users
pub mod Goals
pub mod Policy
pub mod Company
pub mod Models
pub mod Certification
pub mod Drones
pub mod Registry
pub mod Purchase
pub mod Vulnerability
pub mod Monitor
pub mod Guard
mod Tests
