-- ===== src/Round/Start.antt =====
-- Starting a batch (keepers/v3/round/keeper.mjs: runLimit, priceFor, marketCheck, freshPrice, startBatch,
-- onStartRejected). What the chain, the clock of New York and the sender answer is a record of readings; the plan's order id,
-- nonce and texts are left out, and a plan is what its costs and deadline are.
pub mod Admitted
mod Tests
use solonpad_contracts.Demand.Freshness.{ArcReading, Check, check_arc_price, demandable, fresh}
use solonpad_contracts.Market.{GateResult, MarketParams, NyTime, market_gate}
use solonpad_contracts.Base.{
  Bool, Option, Result, err, false, if◌then◌else◌, leb, ltb, min, none, not, ok, or_else, some,
  true, ℕ, ◌&&◌, ◌+◌, ◌-◌, ◌==◌, ◌^◌, ◌||◌,
}
use solonpad_contracts.Round.Budget.{
  RoundCosts, admitted, check_adapter_quote, cost_limit, outside_band,
}

abbrev pub grid18 : ℕ
grid18 = 10 ^ 12

-- `runLimit`: a failed read leaves the configured ceiling.
pub run_limit : (configured : ℕ) → (live : Option ℕ) → ℕ
run_limit configured none = configured
run_limit configured (some live) = if ltb live configured then live else configured

-- The age limits of `priceFor` that are set, `null` and `undefined` being infinite.
abbrev pub least_of : Option ℕ → Option ℕ → Option ℕ
least_of none b = b
least_of (some a) none = some a
least_of (some a) (some b) = some (min a b)

-- `priceFor`: a price of 0 or older than the limit throws.
pub price_for : (now price updated_at : ℕ) (max_age configured : Option ℕ) (legacy : ℕ) → Option ℕ
price_for now price updated_at max_age configured legacy =
    let limit = or_else (least_of max_age configured) legacy in
    if price == 0 || ltb (updated_at + limit) now then none else some price

-- A planned order, as stored in the journal under its slices.
pub record Plan : Type 0 where
  pub deadline : ℕ
  pub expired : Bool
  pub total : ℕ
  pub min_raw : ℕ
  pub fees18 : ℕ
  pub fixed_cost18 : ℕ

-- What the market check comes to: fine, closed by the calendar, or held for another reason.
pub data MarketGate : Type 0 where
  market_open calendar_closed feed_held : MarketGate

-- The price check: fresh, old but a push can help, or neither.
pub data PriceGate : Type 0 where
  price_fresh price_demanded price_missing : PriceGate

-- The adapter's oracle as `marketCheck` reads it: the source's time of the asset; and as `freshPrice` reads it.
pub data Feed : Type 0 where
  no_feed unreadable_feed : Feed
  updated : (at : ℕ) → Feed

pub data Arc : Type 0 where
  no_arc unreadable_arc : Arc
  arc_reading : ArcReading → Arc

abbrev pub gate_of : GateResult → MarketGate
gate_of g = if g.ok then market_open else if g.closed then calendar_closed else feed_held

-- `marketCheck`; `none` is `market: false`.
pub market_check : Option MarketParams → NyTime → (now : ℕ) → Feed → MarketGate
market_check none t now feed = market_open
market_check (some p) t now no_feed = market_open
market_check (some p) t now unreadable_feed = feed_held
market_check (some p) t now (updated at) = gate_of (market_gate p t at now)

abbrev pub price_of : Check → PriceGate
price_of fresh = price_fresh
price_of demandable = price_demanded
price_of _ = price_missing

-- `freshPrice`
pub fresh_price : (now margin : ℕ) → Arc → PriceGate
fresh_price now margin no_arc = price_fresh
fresh_price now margin unreadable_arc = price_missing
fresh_price now margin (arc_reading r) = price_of (check_arc_price r now none margin)

-- A call of the sender.
pub data Sent : Type 0 where
  confirmed simulated simulation_failed other : Sent

pub record Readings : Type 0 where
  pub now : ℕ
  pub market : Option MarketParams
  pub ny : NyTime
  pub feed : Feed
  pub arc : Arc
  pub margin : ℕ
  pub price : Option ℕ
  pub min_raw : ℕ
  pub costs : Option (Option RoundCosts)
  pub quote_ttl : ℕ
  pub fee_balance : ℕ
  pub deposit : Sent
  pub is_signed : Bool
  pub start : Sent

pub data StartOutcome : Type 0 where
  held_market awaiting_price price_unknown funding_quote funding_deferred refused_quote :
      StartOutcome
  deposit_waits no_signer : StartOutcome
  sent_start : (order : Plan) → Sent → StartOutcome

-- `saved`, dropped when it expired or has at most a minute left.
pub reusable : (now : ℕ) → Option Plan → Option Plan
reusable now none = none
reusable now (some p) = if leb p.deadline (now + 60) || p.expired then none else some p

-- A new order for the batch, or why there is none.
pub plan_order : Readings → (total max_budget : ℕ) → Result StartOutcome Plan
plan_order r total most = elim r.price [
  | none ↦ err price_unknown
  | some price ↦ elim r.costs [
    | none ↦ err funding_quote
    | some none ↦ err funding_deferred
    | some (some costs) ↦ elim (check_adapter_quote total costs.fixed_cost18 most) [
      | admitted ↦ ok (record {
        deadline = r.now + r.quote_ttl;
        expired = false;
        total = total;
        min_raw = r.min_raw;
        fees18 = costs.fees18;
        fixed_cost18 = costs.fixed_cost18;
      })
      | outside_band ↦ err refused_quote
      | cost_limit ↦ err refused_quote
    ]
  ]
]

-- The deposit of the missing fees.
abbrev pub is_paid : Sent → Bool
is_paid confirmed = true
is_paid simulated = true
is_paid _ = false

-- From an order on: the deposit of the fees that are missing, the signature, and the start.
pub send_start : Readings → Plan → StartOutcome
send_start r order =
    if ltb r.fee_balance order.fees18 && not (is_paid r.deposit)
    then deposit_waits
    else if not r.is_signed
    then no_signer
    else sent_start order r.start

-- The order that is started: the saved one, or a new one.
abbrev pub order_of : Option Plan → Result StartOutcome Plan → Result StartOutcome Plan
order_of none new = new
order_of (some saved) new = ok saved

-- What is done with it.
abbrev pub start_with : Readings → Result StartOutcome Plan → StartOutcome
start_with r (ok order) = send_start r order
start_with r (err why) = why

-- The order of the gates: the calendar, the price, and then a frozen feed.
abbrev pub gated : MarketGate → PriceGate → StartOutcome → StartOutcome
gated calendar_closed g inner = held_market
gated feed_held price_demanded inner = awaiting_price
gated feed_held price_fresh inner = held_market
gated feed_held price_missing inner = held_market
gated market_open price_demanded inner = awaiting_price
gated market_open price_missing inner = price_unknown
gated market_open price_fresh inner = inner

-- `startBatch`
pub start_batch : Readings → (total max_budget : ℕ) → (saved : Option Plan) → StartOutcome
start_batch r total most saved =
    gated (market_check r.market r.ny r.now r.feed) (fresh_price r.now r.margin r.arc)
      (start_with r (order_of (reusable r.now saved) (plan_order r total most)))

-- The reverts that `onStartRejected` tells apart.
pub data Revert : Type 0 where
  insufficient_value : (got need : ℕ) → Revert
  replan other_revert : Revert

-- `onStartRejected` on the stored plan, when the keeper executes.
pub on_start_rejected : Revert → Plan → Plan
on_start_rejected (insufficient_value got need) p = record p {
  fees18 = p.fees18 + (need - got) + grid18;
}
on_start_rejected replan p = record p { expired = true }
on_start_rejected other_revert p = p
