-- ===== src/Payout/Gas.antt =====
-- The gas of one payout batch (keepers/v3/push/decide.mjs: clampGasBudget, gasPlan).
pub mod Reserve
mod Tests
use solonpad_contracts.Base.{
  List, Option, [], if◌then◌else◌, leb, ltb, max, min, none, some, suc, ℕ, ◌*◌, ◌+◌, ◌-◌, ◌/◌, ◌==◌,
  ◌∷◌,
}

abbrev pub max_accounts : ℕ
max_accounts = 32

abbrev pub min_gas_budget : ℕ
min_gas_budget = 300_000

abbrev pub max_gas_budget : ℕ
max_gas_budget = 2_000_000

abbrev pub reserve : ℕ
reserve = 100_000

-- `clampGasBudget` on an integer.
pub clamp_gas_budget : ℕ → ℕ
clamp_gas_budget budget = min max_gas_budget (max min_gas_budget budget)

pub record GasPlan : Type 0 where
  pub gas_budget : ℕ
  pub accounts : ℕ
  pub gas_limit : ℕ

-- `gasPlan`; an account of no gas fits without limit (the source divides by 0, which is Infinity); the thrown error is `none`.
pub gas_plan : (gas_budget per_account_gas max_tx_gas wanted overhead : ℕ) → Option GasPlan
gas_plan gas_budget per_account max_tx wanted overhead =
    let budget = clamp_gas_budget gas_budget in
    let floor = 2 * budget + reserve + overhead in
    let fit = if per_account == 0 then wanted else (max_tx - floor) / per_account in
    let n = max 1 (min max_accounts (min wanted fit)) in
    if ltb max_tx (floor + per_account)
    then none
    else some (record { gas_budget = budget; accounts = n; gas_limit = floor + n * per_account })

-- The loop of the contract over the accounts of a batch, as the source's header describes it: before each
-- account it asks for `2 x gasBudget + 100k` gas, and an account uses at most `perAccountGas`. The result is
-- how many accounts it reaches.
pub accounts_reached : (gas_budget : ℕ) (used : List ℕ) (gas_left : ℕ) → ℕ
accounts_reached budget [] gas = 0
accounts_reached budget (u ∷ us) gas =
    let rest = accounts_reached budget us (gas - u) in
    if leb (2 * budget + reserve) gas then suc rest else 0
