-- ===== src/Oracle.antt =====
-- The oracle push keeper's decisions (keepers/v3/oracle/decide.mjs).
pub mod Trigger
pub mod Push
pub mod Debounce
