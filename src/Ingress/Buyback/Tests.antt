-- ===== src/Ingress/Buyback/Tests.antt =====
-- A budget of 2,500 in chunks of 1,000.
use solonpad_contracts.Base.{Bool, arith, refl, true, ℕ, ◌*◌, ◌+◌, ◌<◌, ◌^◌, ◌≡◌, ◌≤◌}
use solonpad_contracts.Ingress.Buyback.{desk_plan, mint}
use solonpad_contracts.Ingress.Buyback.Spending.{buy_all, buy_all_spends, desk_plan_mint}

abbrev budget : ℕ
budget = 2_500 * 10 ^ 18

buy_all_spends_example :
    (buy_all 3 budget 0 (10 ^ 18) ≤ budget) × (budget < buy_all 3 budget 0 (10 ^ 18) + 10 ^ 18)
buy_all_spends_example =
    buy_all_spends 3 budget 0 (10 ^ 18) (omega arith) (omega arith) (omega arith) (omega arith)

mints_three : desk_plan 31 10 0 100 5 50 true ≡ mint 3
unfolding desk_plan
mints_three = refl

desk_plan_mint_example :
    (0 < 3) × (3 ≤ 20) × (3 * 10 ≤ 31) × (0 < 100) × (5 < 50) × (◌≡◌ {A = Bool} true true)
desk_plan_mint_example = desk_plan_mint 31 10 0 100 5 50 true {cards = 3} mints_three
