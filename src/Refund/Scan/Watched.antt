-- ===== src/Refund/Scan/Watched.antt =====
-- No overdue refund goes unnoticed.
use solonpad_contracts.Base.{Bool, List, [], false, includes, true, ℕ, ◌==◌, ◌||◌, ◌∷◌, ◌≡◌, ◌⊎◌}
use solonpad_contracts.Refund.Scan.{Alert, Scanned, lz_stuck, proceeds_late, refund_overdue}

abbrev says_overdue : (id : ℕ) → Alert → Bool
says_overdue id (refund_overdue i) = i == id
says_overdue id (proceeds_late i) = false
says_overdue id (lz_stuck i) = false

abbrev has_overdue : (id : ℕ) → List Alert → Bool
has_overdue id [] = false
has_overdue id (a ∷ alerts) = says_overdue id a || has_overdue id alerts

-- The order was closed in this tick, or alerted as overdue.
abbrev pub IsNoticed : (id : ℕ) → Scanned → Type 0
IsNoticed id s = (includes s.closed_now id ≡ true) ⊎ (has_overdue id s.alerts ≡ true)
