-- ===== src/Desk/Tick.antt =====
-- A tick of the Desk keeper (keepers/v3/desk/keeper.mjs: tick) behind the discovery: the queues are scanned, the
-- streams walked, queues opened for those that are ready, and the batches that are due sent.
pub mod Once
use solonpad_contracts.Base.{List, map, ℕ}
use solonpad_contracts.Demand.Requests.{Requests}
use solonpad_contracts.Desk.Ledger.{Chain, Item, State}
use solonpad_contracts.Desk.Walk.{Params, Ready}
use solonpad_contracts.Desk.Queues.{scan_queues}
use solonpad_contracts.Desk.Sweep.{streams_phase}
use solonpad_contracts.Desk.Opening.{open_phase}
use solonpad_contracts.Desk.Service.{Feed, Serving, service_phase}

-- The ids of the discovered streams.
abbrev pub ids : List Item → List ℕ
ids items = map (λ i. i.id) items

module _ {W : Type 0} (chain : Chain W) (feed : Feed W) (p : Params)
    (sort : List Ready → List Ready) (fuel now : ℕ) where
  -- The tick up to the queues opened.
  pub open_tick : List Item → State W → State W
  open_tick items s =
      let scanned = scan_queues chain fuel (ids items) s in
      let (ready, swept) = streams_phase chain p now items scanned in
      open_phase chain fuel (ids items) sort p ready swept

  -- `tick`
  pub tick : List Item → State W → Requests → Serving W
  unfolding open_tick
  tick items s file = service_phase chain feed p now (open_tick items s) file
