-- ===== src/Discovery/Failing/Streak.antt =====
-- An alert means a streak of failed scans.
use solonpad_contracts.Base.{Bool, List, [], false, leb, not, refl, true, ℕ, ◌&&◌, ◌+◌, ◌∷◌, ◌≡◌}
use solonpad_contracts.Discovery.Failing.{discover_phase, discover_ticks}

-- The failed scans at the end of a list, behind `n` before it.
abbrev pub streak : (n : ℕ) → List Bool → ℕ
streak n [] = n
streak n (true ∷ scans) = streak 0 scans
streak n (false ∷ scans) = streak (n + 1) scans

abbrev pub ends_failed : List Bool → Bool → Bool
ends_failed [] last = last
ends_failed (scanned ∷ scans) last = ends_failed scans (not scanned)

discover_ticks_lem :
    (after : ℕ) (scans : List Bool) (n : ℕ) (last : Bool)
    → let out = discover_ticks after scans (n, last && leb after n) in
      (out.0 ≡ streak n scans) × (out.1 ≡ (ends_failed scans last && leb after (streak n scans)))
unfolding discover_ticks discover_phase
discover_ticks_lem after [] n last = (refl, refl)
discover_ticks_lem after (true ∷ scans) n last = discover_ticks_lem after scans 0 false
discover_ticks_lem after (false ∷ scans) n last = discover_ticks_lem after scans (n + 1) true

-- After any history of scans, the record holds the length of the streak of failures that it ends in, and the last
-- tick alerted exactly when its scan failed and that streak has reached the limit.
pub discover_alerts :
    (after : ℕ) (scans : List Bool)
    → let out = discover_ticks after scans (0, false) in
      (out.0 ≡ streak 0 scans) × (out.1 ≡ (ends_failed scans false && leb after (streak 0 scans)))
discover_alerts after scans = discover_ticks_lem after scans 0 false
