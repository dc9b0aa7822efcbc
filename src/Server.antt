-- ===== src/Server.antt =====
-- The servers: internal/service/server_service.go over
-- internal/repository/postgres/server_repository.go.
pub mod Types
pub mod Forms
pub mod Rows
pub mod Table
pub mod Validate
pub mod Views
pub mod Service
pub mod Connector
pub mod Session
pub mod Remote
pub mod Images
pub mod Key
pub mod Kept
pub mod Accepted
pub mod Hosts
