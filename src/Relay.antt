-- ===== src/Relay.antt =====
-- The Relay bridge's quotes (keepers/v3/lib/relay.mjs).
pub mod Fees
pub mod Deposit
pub mod Order
