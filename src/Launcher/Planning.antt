-- ===== src/Launcher/Planning.antt =====
-- What a launch costs and delivers (keepers/v3/launcher/keeper.mjs: plan, checkReceipt). The quote service is outside
-- the program, as the function from an amount to its quote.
pub mod Afforded
use solonpad_contracts.Base.{
  Option, if◌then◌else◌, leb, ltb, none, not, some, ℕ, ◌%◌, ◌&&◌, ◌*◌, ◌+◌, ◌-◌, ◌/◌, ◌==◌, ◌^◌,
}
use solonpad_contracts.Relay.Fees.{
  Route, plan_route_fee, route_costly, route_missing, route_unsettled, routed,
}

-- `SCALE`
abbrev pub scale : ℕ
scale = 10 ^ 12

pub record Quoted : Type 0 where
  pub expected_out : ℕ
  pub order_id : ℕ
  pub request_id : ℕ

pub record Params : Type 0 where
  pub max_per_tick : ℕ
  pub lz_fee_buffer_bps : ℕ
  pub max_shortfall_bps : ℕ
  pub shortfall_alert_bps : ℕ
  pub fill_alert_sec : ℕ
  pub queue_alert_sec : ℕ
  pub fail_alert_after : ℕ

-- The order's principal and the reserve that pays its fees.
pub record OrderView : Type 0 where
  pub amount_in : ℕ
  pub extra : ℕ

pub data LaunchPlan : Type 0 where
  planned : (fee : ℕ) (quoted : Quoted) (short_bps : ℕ) → LaunchPlan
  no_fee unaligned shortfall : LaunchPlan

-- `keep`, and `maxFee`: what the reserve can give the route, in whole 6-decimal units.
abbrev pub keep_of : Params → (lz_fee : ℕ) → ℕ
keep_of p lz_fee = lz_fee + lz_fee * p.lz_fee_buffer_bps / 10_000

abbrev pub max_fee_of : Params → (lz_fee extra : ℕ) → ℕ
max_fee_of p lz_fee extra = (extra - keep_of p lz_fee) / scale * scale

-- The fee of the route's plan: all of the limit when the route would cost more.
abbrev pub fee_of : (max_fee : ℕ) → Route → Option ℕ
fee_of max_fee (routed fee expected) = some fee
fee_of max_fee (route_costly fee) = some max_fee
fee_of max_fee (route_missing fee) = none
fee_of max_fee (route_unsettled fee) = none

-- `shortBps`
unfoldable pub short_bps_of : (need6 expected : ℕ) → ℕ
short_bps_of need6 expected = if leb need6 expected then 0 else (need6 - expected) * 10_000 / need6

-- The end of `plan`, behind the fee.
abbrev pub with_fee : (quote : ℕ → Quoted) → Params → OrderView → Option ℕ → LaunchPlan
with_fee quote p o none = no_fee
with_fee quote p o (some fee) =
    let q = quote (o.amount_in + fee) in
    let short = short_bps_of (o.amount_in / scale) q.expected_out in
    if not ((o.amount_in + fee) % scale == 0)
    then unaligned
    else if ltb p.max_shortfall_bps short
    then shortfall
    else planned fee q short

-- `plan`
unfoldable pub plan_launch : (quote : ℕ → Quoted) → Params → (lz_fee : ℕ) → OrderView → LaunchPlan
plan_launch quote p lz_fee o =
    let max_fee = max_fee_of p lz_fee o.extra in
    let route =
      plan_route_fee (λ a. (quote a).expected_out) o.amount_in (o.amount_in / scale) scale
        (some max_fee) 4 in
    with_fee quote p o (fee_of max_fee route)

-- The events of a receipt: the route's `Sent`, and the depository's deposit.
pub record SentEvent : Type 0 where
  pub order : ℕ
  pub request_id : ℕ

pub record DepositEvent : Type 0 where
  pub id : ℕ
  pub depositor : ℕ
  pub token : ℕ
  pub amount : ℕ

pub data Proof : Type 0 where
  verified no_sent no_deposit mismatch : Proof

-- `checkReceipt`, on the first event of each kind.
pub check_receipt :
    (id hub token order_id total : ℕ) → Option SentEvent → Option DepositEvent → Proof
check_receipt id hub token order_id total none deposit = no_sent
check_receipt id hub token order_id total (some sent_event) none =
    if not (sent_event.order == id && sent_event.request_id == order_id)
    then no_sent
    else no_deposit
check_receipt id hub token order_id total (some sent_event) (some d) =
    let matches =
      d.id == order_id && d.depositor == hub && d.token == token && d.amount == total / scale in
    if not (sent_event.order == id && sent_event.request_id == order_id)
    then no_sent
    else if matches
    then verified
    else mismatch
