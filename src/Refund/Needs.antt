-- ===== src/Refund/Needs.antt =====
-- What one open order needs (keepers/v3/refund/keeper.mjs: half, refundNeed). Amounts are natural
-- numbers; the differences below are of a `held` that is less than half of what is due, so they never
-- go below 0.
pub mod Amounts
mod Tests
use solonpad_contracts.Base.{
  Bool, Option, false, if◌then◌else◌, leb, none, not, some, ℕ, ◌&&◌, ◌*◌, ◌+◌, ◌-◌, ◌==◌, ◌||◌,
}

-- The statuses of `HubStatus` that the keeper tells apart.
pub data HubStatus : Type 0 where
  returning proceeds dispatched other : HubStatus

pub data OrderKind : Type 0 where
  buy sell : OrderKind

pub record Order : Type 0 where
  pub status : HubStatus
  pub kind : OrderKind
  pub outcome : ℕ
  pub amount_in : ℕ
  pub amount_out : ℕ
  pub fee : ℕ
  pub held : ℕ

pub data Need : Type 0 where
  no_need waits_proceeds : Need
  failed_buy unpaid_sell : (credit : ℕ) → Need

-- `half`
pub half : (got due : ℕ) → Bool
half got due = leb due (got * 2) && not (got == 0)

abbrev pub is_zero : Option ℕ → Bool
is_zero none = false
is_zero (some n) = n == 0

abbrev buy_need : HubStatus → Order → Need
buy_need returning o =
    if not (o.outcome == 3) || half o.held o.amount_in
    then no_need
    else failed_buy (o.amount_in - o.held)
buy_need _ o = no_need

abbrev sell_need : HubStatus → Order → Option ℕ → Need
sell_need proceeds o rh =
    if half o.held o.amount_out
    then no_need
    else if not (is_zero rh)
    then waits_proceeds
    else unpaid_sell (o.amount_out + o.fee - o.held)
sell_need _ o rh = no_need

abbrev need_of : OrderKind → Order → Option ℕ → Need
need_of buy o rh = buy_need o.status o
need_of sell o rh = sell_need o.status o rh

-- `refundNeed`
pub refund_need : Order → (rh_proceeds : Option ℕ) → Need
refund_need o rh = need_of o.kind o rh
