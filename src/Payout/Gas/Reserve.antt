-- ===== src/Payout/Gas/Reserve.antt =====
-- The gas plan never starves the batch.
use solonpad_contracts.Base.{
  All, List, [], arith, false, if◌then◌else◌, leb, length, max, min, refl, some, suc, true, zero, ℕ,
  ◌*◌, ◌+◌, ◌-◌, ◌/◌, ◌==◌, ◌∙◌, ◌∷◌, ◌≡◌, ◌≤◌,
}
use solonpad_contracts.Base.Order.{fit-max}
use solonpad_contracts.Payout.Gas.{
  GasPlan, accounts_reached, clamp_gas_budget, gas_plan, max_accounts, max_gas_budget,
  min_gas_budget, reserve,
}

accounts_reached_lem :
    (budget per_account : ℕ) (used : List ℕ) (gas : ℕ)
    → All (λ u. u ≤ per_account) used
    → 2 * budget + reserve + length used * per_account ≤ gas
    → accounts_reached budget used gas ≡ length used
unfolding accounts_reached
accounts_reached_lem budget per_account [] gas each enough = refl
accounts_reached_lem budget per_account (u ∷ us) gas (k, ks) enough =
    let funded : leb (2 * budget + reserve) gas ≡ true = ground arith in
    rw (funded, accounts_reached_lem budget per_account us (gas - u) ks (omega arith)) refl

plan_limit :
    (floor per_account max_tx wanted : ℕ)
    → floor + per_account ≤ max_tx
    → let fit = if per_account == 0 then wanted else (max_tx - floor) / per_account in
      floor + max 1 (min max_accounts (min wanted fit)) * per_account ≤ max_tx
plan_limit floor zero max_tx wanted h = omega arith
plan_limit floor (suc p) max_tx wanted h =
    let some_gas : (suc p == 0) ≡ false = ground arith in
    rw some_gas (
      fit-max floor (suc p) max_tx (min max_accounts (min wanted ((max_tx - floor) / suc p))) h
        (omega arith))

planned :
    (gas_budget per_account max_tx wanted overhead : ℕ) (plan : GasPlan)
    → gas_plan gas_budget per_account max_tx wanted overhead ≡ some plan
    → let budget = clamp_gas_budget gas_budget in
      let floor = 2 * budget + reserve + overhead in
      let fit = if per_account == 0 then wanted else (max_tx - floor) / per_account in
      let n = max 1 (min max_accounts (min wanted fit)) in
      (floor + per_account ≤ max_tx)
      × (plan.gas_budget ≡ budget)
      × (plan.accounts ≡ n)
      × (plan.gas_limit ≡ floor + n * per_account)
unfolding gas_plan
planned gas_budget per_account max_tx wanted overhead plan h = ground arith

-- A planned batch stays within the transaction's gas.
pub gas_plan_limit :
    (gas_budget per_account max_tx wanted overhead : ℕ) (plan : GasPlan)
    → gas_plan gas_budget per_account max_tx wanted overhead ≡ some plan
    → plan.gas_limit ≤ max_tx
gas_plan_limit gas_budget per_account max_tx wanted overhead plan h =
    let (room, budget, accounts, limit) =
      planned gas_budget per_account max_tx wanted overhead plan h in
    let floor = 2 * clamp_gas_budget gas_budget + reserve + overhead in
    rw limit (plan_limit floor per_account max_tx wanted room)

-- A planned batch has a clamped gas budget, between one and thirty-two accounts and a gas limit within the
-- transaction's; and whatever each account really uses, up to the estimate, the contract's guard passes
-- before every account asked for.
pub gas_plan_reaches :
    (gas_budget per_account max_tx wanted overhead : ℕ) (plan : GasPlan) (used : List ℕ)
    → gas_plan gas_budget per_account max_tx wanted overhead ≡ some plan
    → length used ≡ plan.accounts
    → All (λ u. u ≤ per_account) used
    → (min_gas_budget ≤ plan.gas_budget)
      × (plan.gas_budget ≤ max_gas_budget)
      × (1 ≤ plan.accounts)
      × (plan.accounts ≤ max_accounts)
      × (plan.gas_limit ≤ max_tx)
      × (accounts_reached plan.gas_budget used (plan.gas_limit - overhead) ≡ plan.accounts)
unfolding gas_plan clamp_gas_budget
gas_plan_reaches gas_budget per_account max_tx wanted overhead plan used h size each =
    let budget = clamp_gas_budget gas_budget in
    let floor = 2 * budget + reserve + overhead in
    let fit = if per_account == 0 then wanted else (max_tx - floor) / per_account in
    let n = min max_accounts (min wanted fit) in
    let (enough, budget_eq, size_eq, limit_eq) =
      planned gas_budget per_account max_tx wanted overhead plan h in
    let limit : floor + max 1 n * per_account ≤ max_tx =
      plan_limit floor per_account max_tx wanted enough in
    let reached =
      accounts_reached_lem budget per_account used (plan.gas_limit - overhead) each
        (rw (size, size_eq, limit_eq) (omega arith)) in
    (
      omega (arith, budget_eq),
      omega (arith, budget_eq),
      omega (arith, size_eq),
      omega (arith, size_eq),
      rw limit_eq limit,
      rw budget_eq (reached ∙ size),
    )
