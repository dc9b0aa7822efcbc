-- ===== src/RemoteLogs.antt =====
-- internal/remotelogs: the container logs of a remote server.
pub mod Types
pub mod Tail
pub mod Command
pub mod Validate
pub mod Collect
pub mod Messages
