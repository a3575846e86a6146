-- ===== src/Payout/Cycle/Tests.antt =====
-- A day's run of three accounts.
use solonpad_contracts.Base.{
  List, [], arith, drop, inl, length, none, refl, some, ℕ, ◌*◌, ◌-◌, ◌<◌, ◌^◌, ◌∷◌, ◌≡◌, ◌≢◌, ◌≤◌,
}
use solonpad_contracts.Payout.Cycle.{RunConfig, day_plan, pushable_value, queue_decision, run, scan}
use solonpad_contracts.Payout.Cycle.Schedule.{day_plan_run, eligible, not_twice_a_day}

abbrev config : RunConfig
config = record {
  gas_price_wei = 1;
  per_account_gas = 10;
  fixed_gas = 5;
  page_size = 2;
  max_cost_bps = 50;
}

abbrev accounts : List ℕ
accounts = 4_000 ∷ (10 ∷ (5_000 ∷ []))

runs : day_plan config accounts (10 ^ 18) 2_000 0 ≡ run 2 9_000 40 2
unfolding day_plan pushable_value
runs = refl

day_plan_run_example :
    (0 < 10 ^ 18)
    × (0 < 2)
    × (2 ≡ eligible (10 ^ 18) 2_000 (drop 0 accounts))
    × (2 * 2_000 ≤ 9_000)
    × (40 * 10_000 ≤ 9_000 * config.max_cost_bps)
    × (length accounts - 0 ≤ 2 * config.page_size)
day_plan_run_example =
    day_plan_run config accounts (10 ^ 18) 2_000 0 2 9_000 40 2 (omega arith) runs

not_twice_a_day_example :
    queue_decision 90_000 0 5 (record { completed_day = some 1; skipped_day = none }) ≢ scan
not_twice_a_day_example = not_twice_a_day 87_000 90_000 0 5 (some 1) none refl (inl refl)
