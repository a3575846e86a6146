-- ===== src/Round/Budget/Tests.antt =====
-- A queue of 1,100 dollars under a limit of 1,000.
use solonpad_contracts.Base.{arith, ok, refl, some, ℕ, ◌*◌, ◌+◌, ◌-◌, ◌<◌, ◌^◌, ◌≡◌, ◌≢◌, ◌≤◌}
use solonpad_contracts.Round.Budget.{
  align_budget18, even_round, external, min_raw_out, oracle_floor_raw, pick_cap, plan_round_costs,
  round_cap, rounds_of,
}
use solonpad_contracts.Round.Budget.Bounds.{
  min_raw_out_floor, plan_round_costs_covers, round_cap_even,
}

abbrev usd : ℕ → ℕ
usd n = n * 10 ^ 18

split_cap : round_cap (usd 1_100) (usd 1_000) (usd 100) ≡ usd 550
unfolding round_cap pick_cap rounds_of even_round align_budget18
split_cap = refl

plain_cut : align_budget18 (usd 1_000) ≡ usd 1_000
unfolding align_budget18
plain_cut = refl

is_split : round_cap (usd 1_100) (usd 1_000) (usd 100) ≢ align_budget18 (usd 1_000)
is_split = rw (split_cap, plain_cut) (λ e. absurd (ground arith))

round_cap_even_example :
    (align_budget18 (usd 1_000) < usd 1_100)
    × (usd 1_100
        ≤ rounds_of (usd 1_100) (align_budget18 (usd 1_000))
          * round_cap (usd 1_100) (usd 1_000) (usd 100))
    × (usd 100 ≤ round_cap (usd 1_100) (usd 1_000) (usd 100))
    × (usd 100
          + (rounds_of (usd 1_100) (align_budget18 (usd 1_000)) - 1)
            * round_cap (usd 1_100) (usd 1_000) (usd 100)
        ≤ align_budget18 (usd 1_100))
    × (align_budget18 (usd 1_000) < 2 * round_cap (usd 1_100) (usd 1_000) (usd 100))
round_cap_even_example = round_cap_even (usd 1_100) (usd 1_000) (usd 100) is_split

plan_round_costs_covers_example :
    let c = plan_round_costs (usd 100) 5 6 50 1_000 2 external in
    (c.fees18 ≡ c.hub_fee18 + c.relay_fee18 + c.lz_fee18)
    × (6 ≤ c.lz_fee18)
    × (c.fixed_cost18 + c.hub_fee18 ≡ c.fees18 + 2)
plan_round_costs_covers_example = plan_round_costs_covers (usd 100) 5 6 50 1_000 2 external

min_raw_known : min_raw_out (usd 100) (usd 50) 6 100 (some 2_000_000) ≡ ok 1_980_000
unfolding min_raw_out oracle_floor_raw
min_raw_known = refl

min_raw_out_floor_example :
    (0 < 1_980_000) × (0 < usd 50) × (2_000_000 * 9_900 ≤ 1_980_000 * 10_000)
min_raw_out_floor_example =
    min_raw_out_floor (usd 100) (usd 50) 6 100 (some 2_000_000) {r = 1_980_000} min_raw_known
