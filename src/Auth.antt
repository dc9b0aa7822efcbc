-- ===== src/Auth.antt =====
-- Sessions: internal/domain/auth.go, internal/service/auth_service.go, the tables behind it and the
-- middleware in front of it.
pub mod Types
pub mod Tables
pub mod Base64
pub mod Service
pub mod Middleware
pub mod Lookup
pub mod Grants
pub mod Sessions
pub mod TokenText
pub mod LoginTrace
pub mod LoginGrant
pub mod FirstUse
pub mod Guard
pub mod Touch
