-- ===== src/Demand.antt =====
-- On-demand oracle pushes: the request file and its readers (keepers/v3/lib/price-demand.mjs,
-- keepers/v3/oracle/decide.mjs).
pub mod Requests
pub mod Parsed
pub mod Freshness
pub mod Awaiting
