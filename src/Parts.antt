-- ===== src/Parts.antt =====
-- python/app_pkg/parts: the pure and stateful parts that the domains share.
pub mod Digest
pub mod Claim
pub mod WellFormed
pub mod Currency
pub mod Paginate
pub mod Sanitize
