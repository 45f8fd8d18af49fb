-- ===== src/Core.antt =====
-- python/app_pkg/core: errors, the durable store, sessions, authorization.
pub mod Problem
pub mod Exec
pub mod Table
pub mod Session
pub mod Access
pub mod ApiKey
pub mod Throttle
pub mod OrgRole
pub mod Identity
