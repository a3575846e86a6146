-- ===== src/Round.antt =====
-- The round keeper's decisions (keepers/v3/round/decide.mjs) and the life of a round on chain
-- (src/v3/RewardRoundManager.sol).
pub mod Budget
pub mod Batch
pub mod Action
pub mod Dispatch
pub mod Start
pub mod Phases
pub mod Sealing
pub mod Rounds
pub mod Manager
