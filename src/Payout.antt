-- ===== src/Payout.antt =====
-- The daily reward payout keeper: its decisions (keepers/v3/push/decide.mjs) and its phases
-- (keepers/v3/push/keeper.mjs).
pub mod Cycle
pub mod Gas
pub mod Known
pub mod Service
pub mod Prepare
