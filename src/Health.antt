-- ===== src/Health.antt =====
-- The fleet's health check (keepers/v3/lib/health.mjs, keepers/v3/lib/balances.mjs).
pub mod Levels
pub mod Alerts
pub mod Limiter
