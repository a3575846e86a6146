-- ===== src/Desk.antt =====
-- The Desk payout keeper: its decisions (keepers/v3/desk/decide.mjs) and its tick (keepers/v3/desk/keeper.mjs).
pub mod Streams
pub mod Groups
pub mod Pass
pub mod Ledger
pub mod Entries
pub mod Walk
pub mod Queues
pub mod Sweep
pub mod Opening
pub mod Service
pub mod Tick
mod Tests
