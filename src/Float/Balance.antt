-- ===== src/Float/Balance.antt =====
-- A suggested move brings both sides closer to their targets.
use solonpad_contracts.Base.{[], arith, false, true, ℕ, ◌*◌, ◌+◌, ◌<◌, ◌^◌, ◌↔◌, ◌≡◌, ◌≤◌}
use solonpad_contracts.Float.{
  FloatParams, Snapshot, arc_to_rh, e18, float_alerts, is_below, rh_to_arc, suggest,
}

-- A suggested move never takes the side that gives below its target nor the side that receives above it, and it
-- is suggested only when the giving side is above its target by more than the band and the other below.
pub suggest_lem :
    (s : Snapshot) (p : FloatParams) (usd : ℕ)
    → (suggest s p ≡ rh_to_arc usd
        → (p.target_rh6 * 10 ^ 12 + usd * e18 ≤ s.rh_free6 * 10 ^ 12)
          × (s.arc_avail18 + usd * e18 ≤ p.target_arc18)
          × (p.target_rh6 * 10 ^ 12 + p.band18 < s.rh_free6 * 10 ^ 12))
      × (suggest s p ≡ arc_to_rh usd
          → (p.target_arc18 + usd * e18 ≤ s.arc_avail18)
            × (s.rh_free6 * 10 ^ 12 + usd * e18 ≤ p.target_rh6 * 10 ^ 12)
            × (p.target_arc18 + p.band18 < s.arc_avail18))
unfolding suggest
suggest_lem s p usd = ground arith

-- There is no alert exactly when both floats are on and hold an order each, the total has not drifted, nothing
-- is stuck or waiting, and the vault's gas, if it was read, is above its mark.
pub float_alerts_none :
    (s : Snapshot) (p : FloatParams)
    → (float_alerts s p ≡ []) ↔ (
        (s.rh_float_on ≡ true)
        × (s.hub_float_on ≡ true)
        × (p.l_run18 ≤ s.rh_free6 * 10 ^ 12)
        × (p.l_run18 ≤ s.arc_avail18)
        × (p.target_rh6 * 10 ^ 12 + p.target_arc18
            ≤ s.rh_free6 * 10 ^ 12 + s.arc_avail18 + p.drift_alert18)
        × (s.returning ≡ 0)
        × (s.proceeds ≡ 0)
        × (is_below s.vault_eth_wei p.vault_eth_low_wei ≡ false)
        × (s.rh_waiting ≡ 0))
unfolding float_alerts
float_alerts_none s p = ground arith
