-- ===== src/Market/Sessions.antt =====
-- When the gate lets a keeper act.
use solonpad_contracts.Base.{
  arith, false, includes, true, ℕ, ◌*◌, ◌+◌, ◌<◌, ◌↔◌, ◌≡◌, ◌≢◌, ◌≤◌, ◌⊎◌,
}
use solonpad_contracts.Market.{
  MarketParams, NyTime, calendar_first, calendar_last, dow_of, is_open, market_gate, regular,
  round_the_clock, session_state, trading_date,
}

-- The gate is open exactly when the session is open and the feed has an update no older than the heartbeat
-- and its margin; it is closed without an incident exactly when the session is closed inside the calendar.
pub market_gate_iff :
    (p : MarketParams) (t : NyTime) (updated now : ℕ)
    → let g = market_gate p t updated now in
      ((g.ok ≡ true) ↔ (
        (is_open (session_state p t) ≡ true)
        × (0 < updated)
        × (now ≤ updated + p.heartbeat_sec + p.heartbeat_margin_sec)))
      × ((g.closed ≡ true) ↔ (is_open (session_state p t) ≡ false))
      × ((g.ok ≡ false) → (g.alert ≡ false) → g.closed ≡ true)
unfolding market_gate
market_gate_iff p t updated now = ground arith

-- The weekend, from Friday 17:00 to Sunday 18:00 in New York, is closed in both modes, whatever the holidays.
pub weekend_closed :
    (p : MarketParams) (t : NyTime)
    → t.dow ≡ dow_of t.date
    → ((t.dow ≡ 5) × (17 * 60 ≤ t.minute)) ⊎ (t.dow ≡ 6) ⊎ ((t.dow ≡ 0) × (t.minute < 18 * 60))
    → is_open (session_state p t) ≡ false
unfolding session_state trading_date
weekend_closed p t d h = ground arith

-- In the 24/5 mode a session is open exactly on a date of the calendar whose trading date is a weekday
-- and no holiday, less Sunday before 18:00; the evening before a holiday is closed and the evening of
-- one belongs to the next date.
pub overnight_open_iff :
    (p : MarketParams) (t : NyTime)
    → p.mode ≡ round_the_clock
    → (is_open (session_state p t) ≡ true) ↔ (
        (calendar_first ≤ t.date)
        × (t.date ≤ calendar_last)
        × (dow_of (trading_date t) ≢ 0)
        × (dow_of (trading_date t) ≢ 6)
        × ¬ ((t.dow ≡ 0) × (t.minute < 18 * 60))
        × (includes p.holidays (trading_date t) ≡ false))
unfolding session_state
overnight_open_iff p t m = ground arith

-- Whoever restricts the keeper to the regular session only ever loses hours: with the same holidays the
-- 24/5 session is open whenever the regular one is.
pub regular_within :
    (p : MarketParams) (t : NyTime)
    → t.dow ≡ dow_of t.date
    → is_open (session_state (record p { mode = regular }) t) ≡ true
    → is_open (session_state (record p { mode = round_the_clock }) t) ≡ true
unfolding session_state trading_date
regular_within p t d h = ground arith
