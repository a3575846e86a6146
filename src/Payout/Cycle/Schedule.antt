-- ===== src/Payout/Cycle/Schedule.antt =====
-- A queue is scanned at most once a day, and a run costs at most its share of what it pushes.
use solonpad_contracts.Base.{
  Bool-cases, List, Option, [], arith, drop, false, if◌then◌else◌, inl, inr, leb, leb→le, length,
  refl, some, true, ℕ, ◌%◌, ◌*◌, ◌+◌, ◌-◌, ◌/◌, ◌<◌, ◌↔◌, ◌∷◌, ◌≡◌, ◌≢◌, ◌≤◌, ◌⊎◌,
}
use solonpad_contracts.Base.Order.{le-ceil_div}
use solonpad_contracts.Desk.Streams.{day, e18}
use solonpad_contracts.Payout.Cycle.{
  DayRecord, RunConfig, day_plan, is_day, progress_of, pushable_value, queue_decision, run, scan,
  scan_offset, utc_day,
}

-- A queue is scanned exactly when ten minutes of the day have passed, it has accounts, its cycle is neither
-- complete nor skipped today, and the contract's next scan time has come.
pub queue_decision_iff :
    (now next_scan_at upper : ℕ) (rec : DayRecord)
    → (queue_decision now next_scan_at upper rec ≡ scan) ↔ (
        (scan_offset ≤ now % day)
        × (0 < upper)
        × (is_day rec.completed_day (utc_day now) ≡ false)
        × (is_day rec.skipped_day (utc_day now) ≡ false)
        × (next_scan_at ≤ now))
unfolding queue_decision
queue_decision_iff now next_scan_at upper rec = ground arith

-- A queue recorded complete or skipped today is not scanned again at any later time of the same day.
pub not_twice_a_day :
    (now later next_scan_at upper : ℕ) (completed skipped : Option ℕ)
    → now / day ≡ later / day
    → (completed ≡ some (now / day)) ⊎ (skipped ≡ some (now / day))
    → queue_decision later next_scan_at upper
        (record { completed_day = completed; skipped_day = skipped })
      ≢ scan
unfolding queue_decision
not_twice_a_day now later next_scan_at upper completed skipped same (inl c) =
    rw (c, same) (ground arith)
not_twice_a_day now later next_scan_at upper completed skipped same (inr s) =
    elim (Bool-cases (is_day completed (utc_day later))) [
      | inl t ↦ rw (s, same, t) (ground arith)
      | inr f ↦ rw (s, same, f) (ground arith)
    ]

abbrev pub eligible : (price minimum : ℕ) → List ℕ → ℕ
eligible price minimum [] = 0
eligible price minimum (raw ∷ rest) =
    (if leb minimum (raw * price / e18) then 1 else 0) + eligible price minimum rest

pushable_value_lem :
    (price minimum : ℕ) (accounts : List ℕ)
    → let (n, value) = pushable_value price minimum accounts in
      (n ≡ eligible price minimum accounts) × (n * minimum ≤ value)
unfolding pushable_value
pushable_value_lem price minimum [] = (refl, omega arith)
pushable_value_lem price minimum (raw ∷ rest) =
    let (count, worth) = pushable_value_lem price minimum rest in
    elim (Bool-cases (leb minimum (raw * price / e18))) [
      | inl rich ↦ let enough = leb→le _ _ rich in rw rich (omega arith, omega arith)
      | inr poor ↦ rw poor (omega arith, omega arith)
    ]

-- A run is started only at a fresh price, for every account from the cursor on that reaches the minimum and
-- at least one of them; the value pushed is at least the minimum for each, the cost is at most the
-- configured share of it, and the pages hold every remaining account.
pub day_plan_run :
    (config : RunConfig) (accounts : List ℕ) (price minimum cursor n value cost pages : ℕ)
    → 0 < config.page_size
    → day_plan config accounts price minimum cursor ≡ run n value cost pages
    → (0 < price)
      × (0 < n)
      × (n ≡ eligible price minimum (drop cursor accounts))
      × (n * minimum ≤ value)
      × (cost * 10_000 ≤ value * config.max_cost_bps)
      × (length accounts - cursor ≤ pages * config.page_size)
unfolding day_plan
day_plan_run config accounts price minimum cursor n value cost pages pos h =
    let fact = pushable_value_lem price minimum (drop cursor accounts) in
    let held = le-ceil_div (length accounts - cursor) config.page_size pos in grind arith

-- Only a batch that moved the cursor or processed an account may complete a queue, a complete queue's cursor
-- is at its bound, and a cursor that did not pass its start outside a wrap is not progress.
pub progress_of_lem :
    (before after processed upper : ℕ)
    → let p = progress_of before after processed upper in
      (p.is_complete ≡ true
        → (after ≡ upper)
          × ((0 < processed) ⊎ ((before < after) ⊎ ((before ≡ upper) × (0 < after)))))
      × (before ≢ upper → after ≤ before → p.is_moved ≡ false)
      × (before < after → after ≡ upper → p.is_complete ≡ true)
unfolding progress_of
progress_of_lem before after processed upper = ground arith
