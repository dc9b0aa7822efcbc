-- ===== src/Registry.antt =====
-- The registries of images: internal/service/registry_service.go over
-- internal/repository/postgres/registry_repository.go.
pub mod Types
pub mod Rows
pub mod Table
pub mod Validate
pub mod Service
pub mod Kept
pub mod Accepted
pub mod Views
pub mod Connection
