-- ===== src/Ingress.antt =====
-- The fee-ingress keeper: its decisions (keepers/v3/ingress/decide.mjs) and its phases
-- (keepers/v3/ingress/keeper.mjs).
pub mod Routing
pub mod Evidence
pub mod Buyback
pub mod Lots
pub mod Burns
