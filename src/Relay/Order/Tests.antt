-- ===== src/Relay/Order/Tests.antt =====
-- Runs.
