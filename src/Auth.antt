-- ===== src/Auth.antt =====
-- extract_service/auth.py: authentication, entitlements and rate limits.
pub mod Principals
pub mod Limiter
pub mod Windows
pub mod Scope
pub mod Identity
