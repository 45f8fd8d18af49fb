-- ===== src/Domains.antt =====
-- python/app_pkg/domains: one module for each domain.
pub mod LlmUsage
pub mod Orgs
pub mod Payments
pub mod JobQueue
pub mod RateLimit
pub mod Rbac
pub mod Users
pub mod Billing
pub mod Ledger
pub mod Invitations
pub mod ApiKeys
pub mod AuditLog
pub mod Teams
pub mod Idempotency
pub mod FeatureFlags
