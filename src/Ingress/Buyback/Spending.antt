-- ===== src/Ingress/Buyback/Spending.antt =====
-- What the buybacks of one lot spend.
use solonpad_contracts.Base.{
  Bool, arith, false, if◌then◌else◌, ltb, suc, true, zero, ℕ, ◌*◌, ◌+◌, ◌-◌, ◌/◌, ◌<◌, ◌≡◌, ◌≤◌,
  ◌⊎◌,
}
use solonpad_contracts.Ingress.Buyback.{
  below_minimum, buy, buyback_chunk, desk_plan, max_buyback, mint, unfunded, was_executed,
}

-- The executor's calls in a row: each chunk is added to what was spent, until none is bought.
pub buy_all : (fuel budget spent min_buy : ℕ) → ℕ
buy_all zero budget spent min_buy = spent
buy_all (suc fuel) budget spent min_buy = elim (buyback_chunk budget spent false min_buy) [
  | was_executed ↦ spent
  | unfunded ↦ spent
  | below_minimum ↦ spent
  | buy amount ↦ buy_all fuel budget (spent + amount) min_buy
]

-- A chunk is positive, at most the quote's limit and never more than what remains.
buyback_chunk_bounds :
    (budget spent min_buy : ℕ) {amount : ℕ}
    → 0 < min_buy
    → buyback_chunk budget spent false min_buy ≡ buy amount
    → (0 < amount)
      × (amount ≤ max_buyback)
      × (spent + amount ≤ budget)
      × ((amount ≡ max_buyback) ⊎ (spent + amount ≡ budget))
unfolding buyback_chunk
buyback_chunk_bounds budget spent min_buy pos h = ground arith

-- With enough rounds, as many as chunks of the limit cover what remains, the chunks spend the whole budget but
-- for a rest under the minimum buy, and never more than the budget.
pub buy_all_spends :
    (fuel budget spent min_buy : ℕ)
    → 0 < min_buy
    → min_buy ≤ max_buyback
    → spent ≤ budget
    → budget ≤ spent + fuel * max_buyback
    → (buy_all fuel budget spent min_buy ≤ budget)
      × (budget < buy_all fuel budget spent min_buy + min_buy)
unfolding buy_all buyback_chunk
buy_all_spends zero budget spent min_buy pos m s f = omega arith
buy_all_spends (suc fuel) budget spent min_buy pos m s f =
    let amount = if ltb max_buyback (budget - spent) then max_buyback else budget - spent in
    ground (arith, buy_all_spends fuel budget (spent + amount) min_buy pos m)

cards_paid : (cards pending per : ℕ) → cards ≤ pending / per → cards * per ≤ pending
cards_paid cards pending per h = grind arith

-- A mint never exceeds twenty cards nor what the pending tokens pay for, and is planned only below both caps.
pub desk_plan_mint :
    (pending per minted most supply limit : ℕ) (ops : Bool) {cards : ℕ}
    → desk_plan pending per minted most supply limit ops ≡ mint cards
    → (0 < cards)
      × (cards ≤ 20)
      × (cards * per ≤ pending)
      × (minted < most)
      × (supply < limit)
      × (ops ≡ true)
unfolding desk_plan
desk_plan_mint pending per minted most supply limit ops {cards} h =
    ground (arith, cards_paid cards pending per)

-- A chunk is bought of a lot that was not executed, of at most the limit and within the budget.
pub buyback_chunk-buy :
    (budget spent : ℕ) (executed : Bool) (min_buy amount : ℕ)
    → buyback_chunk budget spent executed min_buy ≡ buy amount
    → (executed ≡ false) × (spent + amount ≤ budget) × (amount ≤ max_buyback)
unfolding buyback_chunk
buyback_chunk-buy budget spent executed min_buy amount h = ground arith
