-- ===== src/Ingress/Routing/Actions.antt =====
-- What the next action of a lot says of the lot.
use solonpad_contracts.Base.{Bool, arith, refl, true, ◌≡◌, ◌⊎◌}
use solonpad_contracts.Ingress.Routing.{
  IngressLot, RouterLot, convert, finished, fund, funded, lot_next_action, no_lot, observed,
  raw_funded, record_lot, route, routed, router_action, waits,
}

module _ (at_router : RouterLot) (admitted native signs : Bool) where
  pub action-record_lot :
      (lot : IngressLot)
      → lot_next_action lot admitted at_router native signs ≡ record_lot
      → lot ≡ no_lot
  unfolding lot_next_action router_action
  action-record_lot no_lot h = refl
  action-record_lot observed h = ground arith
  action-record_lot funded h = ground arith

  pub action-fund :
      (lot : IngressLot)
      → lot_next_action lot admitted at_router native signs ≡ fund
      → (lot ≡ observed) × (admitted ≡ true)
  unfolding lot_next_action router_action
  action-fund no_lot h = ground arith
  action-fund observed h = ground arith
  action-fund funded h = ground arith

  pub action-route :
      (lot : IngressLot)
      → lot_next_action lot admitted at_router native signs ≡ route
      → (lot ≡ funded) × (at_router ≡ raw_funded)
  unfolding lot_next_action router_action
  action-route no_lot h = ground arith
  action-route observed h = ground arith
  action-route funded h = ground arith

  pub action-convert :
      (lot : IngressLot)
      → lot_next_action lot admitted at_router native signs ≡ convert
      → (lot ≡ funded) × (at_router ≡ routed)
  unfolding lot_next_action router_action
  action-convert no_lot h = ground arith
  action-convert observed h = ground arith
  action-convert funded h = ground arith

-- A native lot that is funded waits for its router or is finished.
pub action-native :
    (at_router : RouterLot) (admitted signs : Bool)
    → (lot_next_action funded admitted at_router true signs ≡ waits)
      ⊎ (lot_next_action funded admitted at_router true signs ≡ finished)
unfolding lot_next_action router_action
action-native at_router admitted signs = ground arith
