-- ===== src/Market.antt =====
-- The US market gate (keepers/v3/lib/market.mjs). A date is the number of its day since 1970-01-01, which
-- orders dates as their texts do; `nextDate` is the next number and `dowOf` the day of the week from it.
-- New York's clock (`nyTime`, over Intl.DateTimeFormat) is outside the program and is a reading.
pub mod Sessions
mod Tests
use solonpad_contracts.Base.{
  Bool, List, [], false, if◌then◌else◌, includes, leb, ltb, not, true, ℕ, ◌%◌, ◌&&◌, ◌*◌, ◌+◌, ◌-◌,
  ◌==◌, ◌||◌, ◌∷◌,
}

-- `nyTime(nowSec)`
pub record NyTime : Type 0 where
  pub dow : ℕ
  pub minute : ℕ
  pub date : ℕ

-- `NYSE_HOLIDAYS`, 2026 and 2027.
abbrev pub nyse_holidays : List ℕ
nyse_holidays =
    20454 ∷ 20472 ∷ 20500 ∷ 20546 ∷ 20598 ∷ 20623 ∷ 20637 ∷ 20703 ∷ 20783 ∷ 20812 ∷ 20819 ∷ 20836
    ∷ 20864 ∷ 20903 ∷ 20969 ∷ 20987 ∷ 21004 ∷ 21067 ∷ 21147 ∷ 21176 ∷ []

-- `NYSE_EARLY_CLOSES`
abbrev pub nyse_early_closes : List ℕ
nyse_early_closes = 20784 ∷ 20811 ∷ 21148 ∷ []

-- `CALENDAR_FIRST` and `CALENDAR_LAST`: 2026-01-01 and 2027-12-31.
abbrev pub calendar_first : ℕ
calendar_first = 20454

abbrev pub calendar_last : ℕ
calendar_last = 21183

pub data Mode : Type 0 where
  round_the_clock regular : Mode

pub record MarketParams : Type 0 where
  pub mode : Mode
  pub heartbeat_sec : ℕ
  pub heartbeat_margin_sec : ℕ
  pub holidays : List ℕ
  pub early_closes : List ℕ

-- `MARKET_DEFAULTS`
abbrev pub market_defaults : MarketParams
market_defaults = record {
  mode = round_the_clock;
  heartbeat_sec = 86_400;
  heartbeat_margin_sec = 1_800;
  holidays = nyse_holidays;
  early_closes = nyse_early_closes;
}

pub data Closed : Type 0 where
  outside_calendar weekend weekend_opens holiday outside_hours : Closed

pub data Session : Type 0 where
  opened : (trading_date : ℕ) → Session
  shut : Closed → Session

-- `nextDate` and `dowOf`; 1970-01-01 was a Thursday.
abbrev pub next_date : ℕ → ℕ
next_date date = date + 1

abbrev pub dow_of : ℕ → ℕ
dow_of date = (date + 4) % 7

abbrev is_weekend : ℕ → Bool
is_weekend dow = dow == 0 || dow == 6

-- The `regular` part of `sessionState`.
unfoldable pub regular_session : MarketParams → NyTime → Session
regular_session p t =
    let close = if includes p.early_closes t.date then 13 * 60 else 16 * 60 in
    if is_weekend t.dow
    then shut weekend
    else if includes p.holidays t.date
    then shut holiday
    else if ltb t.minute (9 * 60 + 30) || leb close t.minute
    then shut outside_hours
    else opened t.date

-- `tradingDate`: from 17:00 a moment belongs to the next date's session.
unfoldable pub trading_date : NyTime → ℕ
trading_date t = if leb (17 * 60) t.minute then next_date t.date else t.date

-- The 24/5 part of `sessionState`.
unfoldable pub overnight_session : MarketParams → NyTime → Session
overnight_session p t =
    if is_weekend (dow_of (trading_date t))
    then shut weekend
    else if t.dow == 0 && ltb t.minute (18 * 60)
    then shut weekend_opens
    else if includes p.holidays (trading_date t)
    then shut holiday
    else opened (trading_date t)

-- `sessionState`; a mode that is neither of the two throws there and cannot be written here.
unfoldable pub session_state : MarketParams → NyTime → Session
unfolding regular_session overnight_session
session_state p t =
    if ltb t.date calendar_first || ltb calendar_last t.date
    then shut outside_calendar
    else elim p.mode [ regular ↦ regular_session p t | round_the_clock ↦ overnight_session p t ]

abbrev pub is_open : Session → Bool
is_open (opened _) = true
is_open (shut _) = false

-- `feedFresh`: no update at all is infinitely old, and one ahead of the clock is fresh.
unfoldable pub feed_fresh : MarketParams → (source_updated_at now_sec : ℕ) → Bool
feed_fresh p updated now =
    not (updated == 0) && leb (now - updated) (p.heartbeat_sec + p.heartbeat_margin_sec)

pub record GateResult : Type 0 where
  pub ok : Bool
  pub closed : Bool
  pub alert : Bool

abbrev is_expired : Closed → Bool
is_expired outside_calendar = true
is_expired _ = false

abbrev gate_of_session : Bool → Session → GateResult
gate_of_session fresh (shut why) = record { ok = false; closed = true; alert = is_expired why }
gate_of_session fresh (opened _) =
    if fresh
    then record { ok = true; closed = false; alert = false }
    else record { ok = false; closed = false; alert = true }

-- `marketGate`
unfoldable pub market_gate : MarketParams → NyTime → (source_updated_at now_sec : ℕ) → GateResult
unfolding session_state feed_fresh
market_gate p t updated now = gate_of_session (feed_fresh p updated now) (session_state p t)
