-- ===== src/Payout/Cycle.antt =====
-- When a queue is scanned and whether the day's run is worth its gas (keepers/v3/push/decide.mjs:
-- scanWindowOpen, queueDecision, dayPlan, progressOf).
pub mod Schedule
mod Tests
use solonpad_contracts.Base.{
  Bool, List, Option, [], drop, false, if◌then◌else◌, leb, length, ltb, none, not, some, suc, ℕ,
  ◌%◌, ◌&&◌, ◌*◌, ◌+◌, ◌-◌, ◌/◌, ◌==◌, ◌||◌, ◌∷◌,
}
use solonpad_contracts.Desk.Streams.{day, e18}

abbrev pub scan_offset : ℕ
scan_offset = 600

-- `utcDay`
abbrev pub utc_day : ℕ → ℕ
utc_day now = now / day

-- `scanWindowOpen`
abbrev pub scan_window_open : ℕ → Bool
scan_window_open now = leb scan_offset (now % day)

-- The stored record of a queue.
pub record DayRecord : Type 0 where
  pub completed_day : Option ℕ
  pub skipped_day : Option ℕ

pub data Decision : Type 0 where
  before_window empty_queue completed_today skipped_today waits_continuation scan : Decision

-- `record?.completedDay === today`
abbrev pub is_day : Option ℕ → ℕ → Bool
is_day none today = false
is_day (some d) today = d == today

-- `queueDecision`
pub queue_decision : (now next_scan_at upper_bound : ℕ) → DayRecord → Decision
queue_decision now next_scan_at upper_bound rec =
    let today = utc_day now in
    if not (scan_window_open now)
    then before_window
    else if upper_bound == 0
    then empty_queue
    else if is_day rec.completed_day today
    then completed_today
    else if is_day rec.skipped_day today
    then skipped_today
    else if ltb now next_scan_at
    then waits_continuation
    else scan

-- The loop of `dayPlan`: who may be pushed and the value pushed.
pub pushable_value : (price minimum : ℕ) → List ℕ → ℕ × ℕ
pushable_value price minimum [] = (0, 0)
pushable_value price minimum (raw ∷ rest) =
    let (n, value) = pushable_value price minimum rest in
    let usd = raw * price / e18 in if leb minimum usd then (suc n, usd + value) else (n, value)

pub record RunConfig : Type 0 where
  pub gas_price_wei : ℕ
  pub per_account_gas : ℕ
  pub fixed_gas : ℕ
  pub page_size : ℕ
  pub max_cost_bps : ℕ

pub data DayPlan : Type 0 where
  no_price : DayPlan
  nobody : (value cost : ℕ) → DayPlan
  too_costly : (pushable value cost : ℕ) → DayPlan
  run : (pushable value cost pages : ℕ) → DayPlan

-- `Math.ceil(remaining / pageSize)`
abbrev pub ceil_pages : (remaining page_size : ℕ) → ℕ
ceil_pages remaining size = (remaining + size - 1) / size

-- `cost`: the gas of all pages of the accounts from the cursor on.
abbrev pub run_cost : RunConfig → (remaining : ℕ) → ℕ
run_cost config remaining =
    (ceil_pages remaining config.page_size * config.fixed_gas + remaining * config.per_account_gas)
    * config.gas_price_wei

-- `dayPlan`
pub day_plan : RunConfig → (accounts : List ℕ) (price minimum cursor : ℕ) → DayPlan
day_plan config accounts price minimum cursor =
    let (n, value) = pushable_value price minimum (drop cursor accounts) in
    let remaining = length accounts - cursor in
    let cost = run_cost config remaining in
    if price == 0
    then no_price
    else if n == 0
    then nobody value cost
    else if ltb (value * config.max_cost_bps) (cost * 10_000)
    then too_costly n value cost
    else run n value cost (ceil_pages remaining config.page_size)

pub record Progress : Type 0 where
  pub is_moved : Bool
  pub is_complete : Bool

-- `progressOf`
pub progress_of : (before after processed_events upper_bound : ℕ) → Progress
progress_of before after processed upper =
    let wrapped = before == upper in
    let moved = if wrapped then ltb 0 after || ltb 0 processed else ltb before after in
    record { is_moved = moved; is_complete = after == upper && (moved || ltb 0 processed) }
