-- ===== src/RemotePurge.antt =====
-- internal/remotepurge: the removal of an image and of its containers from a remote server.
pub mod Types
pub mod Validate
pub mod Steps
pub mod Run
pub mod Agreement
pub mod Order
pub mod Contract
pub mod Verified
pub mod Messages
