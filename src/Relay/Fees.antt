-- ===== src/Relay/Fees.antt =====
-- Sizing the fee of an exact-input order (keepers/v3/lib/relay.mjs: planFundingFees, planRouteFee). The
-- quote service is outside the program: it is the function from an input to the output it promises.
pub mod Covered
mod Tests
use solonpad_contracts.Base.{
  Bool, Option, false, if◌then◌else◌, leb, ltb, none, some, suc, zero, ℕ, ◌%◌, ◌*◌, ◌+◌, ◌-◌, ◌/◌,
  ◌==◌, ◌^◌,
}

abbrev pub grid18 : ℕ
grid18 = 10 ^ 12

pub data Funding : Type 0 where
  funded : (fees min_out quoted : ℕ) → Funding
  no_route cost_limit not_converging : (fees : ℕ) → Funding

-- `onGrid`
pub on_grid : (budget fees : ℕ) → ℕ
on_grid budget fees = fees + (grid18 - (budget + fees) % grid18) % grid18

-- The fees of the next try, from an input and what it was quoted.
pub rescale : (budget need6 buffer_bps input min6 : ℕ) → ℕ
unfolding on_grid
rescale budget need6 buffer_bps input min6 =
    let scaled = (need6 * grid18 * input + min6 * grid18 - 1) / (min6 * grid18) in
    let fee = scaled - budget in on_grid budget (fee + fee * buffer_bps / 10_000 + grid18)

-- The loop of `planFundingFees`, on the iterations left. A quote below the need scales the input up, so
-- `fee` does not go below 0.
pub try_fees : (left : ℕ) (quote : ℕ → ℕ) (budget need6 most buffer_bps fees : ℕ) → Funding
try_fees zero quote budget need6 most buffer fees = not_converging fees
try_fees (suc left) quote budget need6 most buffer fees =
    let input = budget + fees in
    let min6 = quote input in
    let next = rescale budget need6 buffer input min6 in
    let rest = try_fees left quote budget need6 most buffer next in
    if leb need6 min6
    then funded fees need6 min6
    else if min6 == 0
    then no_route fees
    else if ltb most next
    then cost_limit next
    else rest

-- `planFundingFees`
pub plan_funding_fees :
    (quote : ℕ → ℕ) (budget18 max_fee_bps buffer_bps max_iterations : ℕ) → Funding
plan_funding_fees quote budget max_bps buffer tries =
    try_fees tries quote budget ((budget + grid18 - 1) / grid18) (budget * max_bps / 10_000) buffer
      (on_grid budget 0)

pub data Route : Type 0 where
  routed : (fee expected : ℕ) → Route
  route_missing route_costly route_unsettled : (fee : ℕ) → Route

-- `fee = ((next + grid - 1n) / grid) * grid`
unfoldable pub round_up : (amount grid : ℕ) → ℕ
round_up amount grid = (amount + grid - 1) / grid * grid

unfoldable pub above : Option ℕ → ℕ → Bool
above none fee = false
above (some most) fee = ltb most fee

-- The loop of `planRouteFee`, on the iterations left.
unfoldable pub try_route :
    (left : ℕ) (quote : ℕ → ℕ) (amount_in need_out grid : ℕ) (max_fee : Option ℕ) (fee : ℕ) → Route
try_route zero quote amount_in need_out grid max_fee fee = route_unsettled fee
try_route (suc left) quote amount_in need_out grid max_fee fee =
    let out = quote (amount_in + fee) in
    let short = need_out - out in
    let share = short * amount_in / need_out in
    let next = round_up (fee + share + share / 10 + grid) grid in
    let rest = try_route left quote amount_in need_out grid max_fee next in
    if leb need_out out
    then routed fee out
    else if out == 0
    then route_missing fee
    else if above max_fee next
    then route_costly next
    else rest

-- `planRouteFee`
unfoldable pub plan_route_fee :
    (quote : ℕ → ℕ) (amount_in need_out grid : ℕ) (max_fee : Option ℕ) (max_iterations : ℕ) → Route
plan_route_fee quote amount_in need_out grid max_fee tries =
    try_route tries quote amount_in need_out grid max_fee 0
