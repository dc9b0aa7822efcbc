-- ===== src/RemoteDeploy.antt =====
-- internal/remotedeploy: the roll-out of an image on a remote server, step by step.
pub mod Types
pub mod Validate
pub mod Commands
pub mod Steps
pub mod Run
pub mod Agreement
pub mod Order
pub mod Contract
pub mod CommandWords
pub mod Messages
