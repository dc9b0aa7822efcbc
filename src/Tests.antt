-- ===== src/Tests.antt =====
-- Concrete inputs, runs of the model on them, and the theorems applied to them.
pub mod Hosts
pub mod Deploy
pub mod Purge
pub mod Logs
pub mod Auth
pub mod Services
pub mod Removed
pub mod Crypto
pub mod Forms
