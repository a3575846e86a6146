-- ===== src/Refund.antt =====
-- The refund keeper (keepers/v3/refund/keeper.mjs).
pub mod Needs
pub mod Credit
pub mod Scan
