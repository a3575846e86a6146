-- ===== src/Ingress/Routing/Halves.antt =====
-- No unit of a lot is lost or routed twice.
use solonpad_contracts.Base.{
  Bool, List, [], arith, false, sum, true, ℕ, ◌*◌, ◌+◌, ◌↔◌, ◌∷◌, ◌≡◌, ◌≤◌,
}
use solonpad_contracts.Ingress.Routing.{
  IngressLot, RouterLot, SourceKind, convert, expected_routing, finished, fund, funded,
  lot_next_action, no_lot, observed, other_v2, record_lot, routed, routed_done, solon_v2,
  stock_half,
}

-- The stock half of a lot and the part carried over, from a remainder of at most one unit.
stock_half_lem :
    (a r : ℕ)
    → r ≤ 1
    → (2 * (stock_half a r).stock + (stock_half a r).remainder ≡ a + r)
      × ((stock_half a r).stock ≤ a)
      × ((stock_half a r).remainder ≤ 1)
unfolding stock_half
stock_half_lem a r h = omega arith

-- The lots of one asset in a row, with the remainder carried: the sum of the stock halves, and the last
-- remainder.
pub stock_halves : List ℕ → ℕ → ℕ × ℕ
stock_halves [] r = (0, r)
stock_halves (a ∷ lots) r =
    let h = stock_half a r in let rest = stock_halves lots h.remainder in (h.stock + rest.0, rest.1)

-- Over any sequence of lots the stock side receives exactly half of all the money: twice its sum and the
-- remainder carried at the end make up every lot and the remainder at the start, so rounding never
-- adds up.
pub stock_halves_exact :
    (lots : List ℕ) (r : ℕ)
    → r ≤ 1
    → (2 * (stock_halves lots r).0 + (stock_halves lots r).1 ≡ sum lots + r)
      × ((stock_halves lots r).1 ≤ 1)
unfolding stock_halves
stock_halves_exact [] r h = omega arith
stock_halves_exact (a ∷ lots) r h =
    let (half, within, low) = stock_half_lem a r h in
    omega (arith, half, low, stock_halves_exact lots (stock_half a r).remainder low)

-- Every lot is routed whole: stock budget, buyback, burn and conversion add up to the amount, on every
-- branch; the protocol's Desk is served by the other sources alone.
pub expected_routing_whole :
    (kind : SourceKind) (native : Bool) (amount remainder : ℕ)
    → remainder ≤ 1
    → let r = expected_routing kind native amount remainder in
      (r.stock_usdc18 + r.buyback_usdc18 + r.burn_raw + r.convert_raw ≡ amount)
      × (r.remainder ≤ 1)
      × ((r.protocol_desk ≡ true) ↔ (kind ≡ other_v2))
unfolding expected_routing
expected_routing_whole solon_v2 native amount remainder h =
    ground (arith, stock_half_lem amount remainder h)
expected_routing_whole other_v2 native amount remainder h = ground arith

-- A lot is funded only after it was observed and admitted, and never while it is unrecorded or already
-- funded; it is finished exactly when it is funded and the router is done with it.
pub lot_next_action_safe :
    (s : IngressLot) (admitted : Bool) (at_router : RouterLot) (native signed : Bool)
    → let act = lot_next_action s admitted at_router native signed in
      ((act ≡ fund) ↔ ((s ≡ observed) × (admitted ≡ true)))
      × ((act ≡ finished) ↔ ((s ≡ funded) × (at_router ≡ routed_done)))
      × ((act ≡ record_lot) ↔ ((s ≡ no_lot) × (signed ≡ true)))
      × ((act ≡ convert) ↔ ((s ≡ funded) × (native ≡ false) × (at_router ≡ routed)))
unfolding lot_next_action
lot_next_action_safe s admitted at_router native signed = ground arith
