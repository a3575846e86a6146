-- ===== src/Ingress/Routing/Tests.antt =====
-- Two odd lots.
use solonpad_contracts.Base.{[], arith, true, ◌*◌, ◌+◌, ◌↔◌, ◌∷◌, ◌≡◌, ◌≤◌}
use solonpad_contracts.Ingress.Routing.{expected_routing, other_v2, solon_v2}
use solonpad_contracts.Ingress.Routing.Halves.{
  expected_routing_whole, stock_halves, stock_halves_exact,
}

stock_halves_exact_example :
    (2 * (stock_halves (7 ∷ (5 ∷ [])) 0).0 + (stock_halves (7 ∷ (5 ∷ [])) 0).1 ≡ 12)
    × ((stock_halves (7 ∷ (5 ∷ [])) 0).1 ≤ 1)
stock_halves_exact_example = stock_halves_exact (7 ∷ (5 ∷ [])) 0 (omega arith)

expected_routing_whole_example :
    let r = expected_routing solon_v2 true 7 1 in
    (r.stock_usdc18 + r.buyback_usdc18 + r.burn_raw + r.convert_raw ≡ 7)
    × (r.remainder ≤ 1)
    × ((r.protocol_desk ≡ true) ↔ (solon_v2 ≡ other_v2))
expected_routing_whole_example = expected_routing_whole solon_v2 true 7 1 (omega arith)
