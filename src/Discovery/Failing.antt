-- ===== src/Discovery/Failing.antt =====
-- The count of failed scans (keepers/v3/desk/keeper.mjs, keepers/v3/push/keeper.mjs, keepers/v3/round/keeper.mjs:
-- discoverPhase, the same in each).
pub mod Streak
use solonpad_contracts.Base.{Bool, List, [], false, leb, true, ℕ, ◌+◌, ◌∷◌}

-- `discoverPhase`: the failures recorded, after a scan, and whether it alerts.
pub discover_phase : (alert_after : ℕ) (scanned : Bool) (failures : ℕ) → ℕ × Bool
discover_phase alert_after true failures = (0, false)
discover_phase alert_after false failures = (failures + 1, leb alert_after (failures + 1))

-- The phase over the scans of some ticks, the latest last: the failures, and whether the last tick alerted.
pub discover_ticks : (alert_after : ℕ) → List Bool → ℕ × Bool → ℕ × Bool
discover_ticks alert_after [] r = r
discover_ticks alert_after (scanned ∷ scans) r =
    discover_ticks alert_after scans (discover_phase alert_after scanned r.0)
