-- ===== src/Round/Budget.antt =====
-- Amounts of a reward round (keepers/v3/round/decide.mjs): the round minimum, the 6-decimal grid, the
-- split of a long queue, the oracle floor under the minimum output, the cost model and the adapter's
-- own checks. A BigInt that is never negative is a natural number; where the source compares a
-- difference that may be negative, the test is written without the subtraction.
pub mod Bounds
mod Tests
use solonpad_contracts.Base.{
  Option, Result, err, if◌then◌else◌, leb, ltb, none, ok, some, ℕ, ◌%◌, ◌*◌, ◌+◌, ◌-◌, ◌/◌, ◌==◌,
  ◌^◌, ◌||◌,
}

abbrev pub e18 : ℕ
e18 = 10 ^ 18

abbrev pub round_min_base : ℕ
round_min_base = 100 * e18

abbrev pub round_max : ℕ
round_max = 10_000 * e18

abbrev pub usdc_grid : ℕ
usdc_grid = 10 ^ 12

-- `minimumBudget`
unfoldable pub minimum_budget : ℕ → ℕ
minimum_budget fixed_cost18 =
    if ltb (e18 / 2) fixed_cost18 then fixed_cost18 * 200 else round_min_base

-- `alignBudget18`
unfoldable pub align_budget18 : ℕ → ℕ
align_budget18 total = total - total % usdc_grid

-- `n` of `roundCap`: the queue over the cap, rounded up.
unfoldable pub rounds_of : (queued cap : ℕ) → ℕ
rounds_of queued cap = (queued + cap - 1) / cap

-- `even` of `roundCap`: one of `n` equal rounds, rounded up to the grid.
unfoldable pub even_round : (queued n : ℕ) → ℕ
even_round queued n = align_budget18 ((queued + n - 1) / n + usdc_grid - 1)

-- The tests of `roundCap`, in its order. `last = aligned - (n - 1) * even` may be negative there:
-- `last < minimum` is `aligned < minimum + (n - 1) * even`.
unfoldable pub pick_cap : (queued minimum cap n even : ℕ) → ℕ
pick_cap queued minimum cap n even =
    if cap == 0 || leb queued cap
    then cap
    else if ltb cap even
    then cap
    else if ltb even minimum || ltb (align_budget18 queued) (minimum + (n - 1) * even)
    then cap
    else even

-- `roundCap`
unfoldable pub round_cap : (queued run_limit minimum : ℕ) → ℕ
round_cap queued run_limit minimum =
    let cap = align_budget18 run_limit in
    let n = rounds_of queued cap in pick_cap queued minimum cap n (even_round queued n)

abbrev pub oracle_floor_bps : ℕ
oracle_floor_bps = 100

-- `oracleFloorRaw`
pub oracle_floor_raw : ℕ → ℕ
oracle_floor_raw raw_for = (raw_for * (10_000 - oracle_floor_bps) + 9_999) / 10_000

pub data QuoteError : Type 0 where
  no_price rounds_to_zero : QuoteError

-- `minRawOut`. A slippage above 10_000 makes the source's product negative and the truncated one
-- zero: the floor lifts both.
pub min_raw_out : (budget18 price_usd18 decimals slippage_bps : ℕ) → Option ℕ → Result QuoteError ℕ
unfolding oracle_floor_raw
min_raw_out budget18 price_usd18 decimals slippage_bps floor_raw =
    let raw = budget18 * 10 ^ decimals / price_usd18 in
    let wanted = (raw * (10_000 - slippage_bps) + 9_999) / 10_000 in
    let floor = oracle_floor_raw (elim floor_raw [ none ↦ raw | some f ↦ f ]) in
    let least = if ltb wanted floor then floor else wanted in
    if price_usd18 == 0 then err no_price else if least == 0 then err rounds_to_zero else ok least

pub data CostBasis : Type 0 where
  external all : CostBasis

pub record RoundCosts : Type 0 where
  pub fees18 : ℕ
  pub fixed_cost18 : ℕ
  pub hub_fee18 : ℕ
  pub relay_fee18 : ℕ
  pub lz_fee18 : ℕ

-- `planRoundCosts`; a cost basis that is neither of the two throws there and cannot be written here.
pub plan_round_costs :
    (budget18 relay_fee18 lz_fee18 hub_fee_bps lz_buffer_bps extra_fixed_cost18 : ℕ)
    → CostBasis
    → RoundCosts
plan_round_costs budget18 relay_fee lz_fee hub_fee_bps lz_buffer_bps extra basis =
    let hub_fee = budget18 * hub_fee_bps / 10_000 in
    let lz = (lz_fee * (10_000 + lz_buffer_bps) + 9_999) / 10_000 in
    let outside = relay_fee + lz in
    record {
      fees18 = hub_fee + outside;
      fixed_cost18 = outside + extra + elim basis [ external ↦ 0 | all ↦ hub_fee ];
      hub_fee18 = hub_fee;
      relay_fee18 = relay_fee;
      lz_fee18 = lz;
    }

pub data AdapterCheck : Type 0 where
  admitted outside_band cost_limit : AdapterCheck

-- `checkAdapterQuote`
unfoldable pub check_adapter_quote : (budget18 fixed_cost18 run_limit : ℕ) → AdapterCheck
check_adapter_quote budget18 fixed_cost18 run_limit =
    if ltb budget18 round_min_base || ltb run_limit budget18
    then outside_band
    else if ltb (budget18 / 200) fixed_cost18
    then cost_limit
    else admitted
