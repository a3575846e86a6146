-- ===== src/Refund/Scan.antt =====
-- The refund keeper's scan of the open orders (keepers/v3/refund/keeper.mjs: the loop of tick, handle, watchOverdue,
-- watchStuck). What crediting an order comes to in this tick is a reading here, and `Credit` says how it comes
-- about. An order that cannot be read at all ends the tick and is not modelled.
pub mod Watched
mod Tests
use solonpad_contracts.Base.{
  Bool, List, Option, [], false, if◌then◌else◌, includes, ltb, not, true, ℕ, ◌&&◌, ◌+◌, ◌-◌, ◌∷◌,
}
use solonpad_contracts.Refund.Needs.{
  HubStatus, Need, Order, dispatched, failed_buy, no_need, proceeds, refund_need, returning,
  unpaid_sell, waits_proceeds,
}

pub data Attempt : Type 0 where
  threw closed left_open : Attempt

-- An open order as `getOrder` gives it; `rh_proceeds` is what `handle` passes on, `reads` whether it could be read.
pub record OpenOrder : Type 0 where
  pub id : ℕ
  pub order : Order
  pub settled_at : ℕ
  pub dispatched_at : ℕ
  pub reads : Bool
  pub rh_proceeds : Option ℕ
  pub attempt : Attempt

pub record Params : Type 0 where
  pub max_per_tick : ℕ
  pub proceeds_grace_sec : ℕ
  pub refund_overdue_sec : ℕ
  pub lz_stuck_sec : ℕ

pub data Alert : Type 0 where
  proceeds_late refund_overdue lz_stuck : (id : ℕ) → Alert

-- `n`, `failed`, `closedNow`, and the alerts so far.
pub record Scanned : Type 0 where
  pub attempts : ℕ
  pub failed : Bool
  pub closed_now : List ℕ
  pub alerts : List Alert

abbrev pub nothing_scanned : Scanned
nothing_scanned = record { attempts = 0; failed = false; closed_now = []; alerts = [] }

abbrev pub is_dispatched : HubStatus → Bool
is_dispatched dispatched = true
is_dispatched _ = false

-- An order in one of the two statuses of a refund.
abbrev pub is_owed : HubStatus → Bool
is_owed returning = true
is_owed proceeds = true
is_owed _ = false

abbrev pub alert_if : Bool → Alert → Scanned → Scanned
alert_if b a s = if b then record s { alerts = a ∷ s.alerts } else s

module _ (p : Params) (now : ℕ) where
  -- `watchStuck`
  abbrev pub watch_stuck : OpenOrder → Scanned → Scanned
  watch_stuck o =
      alert_if (is_dispatched o.order.status && ltb p.lz_stuck_sec (now - o.dispatched_at))
        (lz_stuck o.id)

  -- `credit`, as the scan sees it.
  abbrev pub after_attempt : (id : ℕ) → Attempt → Scanned → Scanned
  after_attempt id threw s = record s { failed = true }
  after_attempt id closed s = record s { attempts = s.attempts + 1; closed_now = id ∷ s.closed_now }
  after_attempt id left_open s = record s { attempts = s.attempts + 1 }

  abbrev pub on_need : OpenOrder → Need → Scanned → Scanned
  on_need o no_need s = s
  on_need o waits_proceeds s =
      alert_if (ltb p.proceeds_grace_sec (now - o.settled_at)) (proceeds_late o.id) s
  on_need o (failed_buy amount) s = after_attempt o.id o.attempt s
  on_need o (unpaid_sell amount) s = after_attempt o.id o.attempt s

  -- `handle`
  pub handle : OpenOrder → Scanned → Scanned
  handle o s =
      let handled = on_need o (refund_need o.order o.rh_proceeds) s in
      if o.reads then handled else record s { failed = true }

  -- `watchOverdue`
  abbrev pub watch_overdue : OpenOrder → Scanned → Scanned
  watch_overdue o s =
      alert_if
        (is_owed o.order.status
          && not (includes s.closed_now o.id)
          && ltb p.refund_overdue_sec (now - o.settled_at))
        (refund_overdue o.id) s

  -- One turn of the loop: an error is kept, and the scan goes on.
  pub scan_order : OpenOrder → Scanned → Scanned
  scan_order o s =
      let watched = watch_stuck o s in
      let handled = handle o watched in
      watch_overdue o (if ltb s.attempts p.max_per_tick then handled else watched)

  pub scan_orders : List OpenOrder → Scanned → Scanned
  scan_orders [] s = s
  scan_orders (o ∷ os) s = scan_orders os (scan_order o s)
