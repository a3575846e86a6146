-- ===== src/Relay/Fees/Tests.antt =====
-- A service that keeps one in a hundred.
use solonpad_contracts.Base.{some, ℕ, ◌*◌, ◌+◌, ◌-◌, ◌/◌, ◌<◌, ◌^◌, ◌≤◌}
use solonpad_contracts.Relay.Fees.{grid18, on_grid, plan_funding_fees, plan_route_fee}
use solonpad_contracts.Relay.Fees.Covered.{
  IsCovered, IsRouted, plan_funding_fees_covers, plan_route_fee_covers,
}

abbrev keeps_one_percent : ℕ → ℕ
keeps_one_percent input = input * 99 / 100 / 10 ^ 12

abbrev budget : ℕ
budget = 200 * 10 ^ 18

plan_funding_fees_covers_example :
    (on_grid budget 0 < grid18)
    × (budget ≤ (budget + grid18 - 1) / grid18 * grid18)
    × IsCovered keeps_one_percent budget
        ((budget + grid18 - 1) / grid18)
        (budget * 200 / 10_000)
        (on_grid budget 0)
        (plan_funding_fees keeps_one_percent budget 200 1_000 4)
plan_funding_fees_covers_example = plan_funding_fees_covers keeps_one_percent budget 200 1_000 4

plan_route_fee_covers_example :
    IsRouted keeps_one_percent budget 100 grid18
      (some (2 * 10 ^ 18))
      (plan_route_fee keeps_one_percent budget 100 grid18 (some (2 * 10 ^ 18)) 4)
plan_route_fee_covers_example =
    plan_route_fee_covers keeps_one_percent budget 100 grid18 (some (2 * 10 ^ 18)) 4
