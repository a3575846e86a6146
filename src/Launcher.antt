-- ===== src/Launcher.antt =====
-- The launcher of queued stock buys (keepers/v3/launcher/keeper.mjs).
pub mod Planning
pub mod Launch
pub mod Fills
