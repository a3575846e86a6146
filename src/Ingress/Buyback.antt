-- ===== src/Ingress/Buyback.antt =====
-- Buyback chunks, their minimum output and the Desk vault's plan (keepers/v3/ingress/decide.mjs:
-- buybackChunk, buybackMinOut, deskPlan).
pub mod Spending
mod Tests
use solonpad_contracts.Base.{
  Bool, Result, err, if◌then◌else◌, leb, ltb, not, ok, ℕ, ◌*◌, ◌+◌, ◌-◌, ◌/◌, ◌==◌, ◌^◌, ◌||◌,
}

abbrev pub max_buyback : ℕ
max_buyback = 1000 * 10 ^ 18

pub data Chunk : Type 0 where
  was_executed unfunded below_minimum : Chunk
  buy : (amount : ℕ) → Chunk

-- `buybackChunk`. `remaining` is negative where more was spent than the budget: then it is below any
-- minimum, as 0 is below a positive one.
unfoldable pub buyback_chunk : (budget spent : ℕ) (executed : Bool) (min_buy : ℕ) → Chunk
buyback_chunk budget spent executed min_buy =
    if executed
    then was_executed
    else if budget == 0
    then unfunded
    else if ltb budget (spent + min_buy)
    then below_minimum
    else buy (if ltb max_buyback (budget - spent) then max_buyback else budget - spent)

pub data PriceError : Type 0 where
  no_price rounds_to_zero : PriceError

-- `buybackMinOut`
unfoldable pub buyback_min_out : (budget18 solon_per_usdc18 slippage_bps : ℕ) → Result PriceError ℕ
buyback_min_out budget price slippage =
    let out = budget * price / 10 ^ 18 * (10_000 - slippage) / 10_000 in
    if price == 0 then err no_price else if out == 0 then err rounds_to_zero else ok out

pub data VaultPlan : Type 0 where
  sweep nothing ops_shortfall below_card : VaultPlan
  mint : (cards : ℕ) → VaultPlan

-- `deskPlan`
pub desk_plan :
    (pending per_desk protocol_minted protocol_max total_supply max_supply : ℕ)
    → (ops_surcharge : Bool) → VaultPlan
desk_plan pending per_desk minted protocol_max supply max_supply ops =
    let cards = pending / per_desk in
    if leb protocol_max minted || leb max_supply supply
    then (if ltb 0 pending then sweep else nothing)
    else if cards == 0
    then below_card
    else if not ops
    then ops_shortfall
    else mint (if ltb 20 cards then 20 else cards)
