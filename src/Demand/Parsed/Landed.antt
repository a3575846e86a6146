-- ===== src/Demand/Parsed/Landed.antt =====
-- A stamp that was written and has not expired reaches the oracle keeper's demand.
use solonpad_contracts.Base.{if◌then◌else◌, ltb, max, or_else, some, ℕ, ◌+◌, ◌≡◌, ◌≤◌}
use solonpad_contracts.Base.Dict.{Dict, insert, lookup}
use solonpad_contracts.Oracle.Trigger.{Demand}

-- The collected stamp of a stock is at least `t`.
abbrev pub AtLeast : (t u : ℕ) → Dict ℕ → Type 0
AtLeast t u at = (x : ℕ) × (lookup u at ≡ some x) × (t ≤ x)

abbrev merged : (now ttl mine u : ℕ) → Dict ℕ → Dict ℕ
merged now ttl mine u at =
    if ltb (mine + ttl) now then at else insert u (max (or_else (lookup u at) 0) mine) at
