-- ===== src/Payout/Gas/Tests.antt =====
-- A batch of two accounts.
use solonpad_contracts.Base.{[], arith, refl, some, ◌-◌, ◌∷◌, ◌≡◌, ◌≤◌}
use solonpad_contracts.Payout.Gas.{GasPlan, accounts_reached, clamp_gas_budget, gas_plan}
use solonpad_contracts.Payout.Gas.Reserve.{gas_plan_reaches}

abbrev plan : GasPlan
plan = record { gas_budget = 300_000; accounts = 2; gas_limit = 1_220_000 }

planned_two : gas_plan 100_000 200_000 1_300_000 32 120_000 ≡ some plan
unfolding gas_plan clamp_gas_budget
planned_two = refl

gas_plan_reaches_example :
    (300_000 ≤ plan.gas_budget)
    × (plan.gas_budget ≤ 2_000_000)
    × (1 ≤ plan.accounts)
    × (plan.accounts ≤ 32)
    × (plan.gas_limit ≤ 1_300_000)
    × (accounts_reached plan.gas_budget (200_000 ∷ (150_000 ∷ [])) (plan.gas_limit - 120_000)
        ≡ plan.accounts)
gas_plan_reaches_example =
    gas_plan_reaches 100_000 200_000 1_300_000 32 120_000 plan (200_000 ∷ (150_000 ∷ []))
      planned_two refl (omega arith, (omega arith, tt))
