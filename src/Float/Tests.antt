-- ===== src/Float/Tests.antt =====
-- Runs.
