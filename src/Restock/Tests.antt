-- ===== src/Restock/Tests.antt =====
-- A steady dry run of one hour.
use solonpad_contracts.Base.{[], false, refl, true, ◌*◌, ◌<◌, ◌^◌, ◌∷◌, ◌≡◌, ◌≤◌}
use solonpad_contracts.Restock.{
  Facts, GateParams, evaluate_gate, largest_gap, starts_before, window_of,
}
use solonpad_contracts.Restock.Opening.{IsSteady, evaluate_gate_open}

abbrev facts : Facts
facts = record {
  approved_quote = true;
  initialized = true;
  liquidity = 1;
  idle_usdc = 600 * 10 ^ 18;
  router_bound = true;
  verify_passed = true;
  events =
      record { at = 100; is_anomaly = false }
      ∷ (record { at = 1_700_000; is_anomaly = false } ∷ []);
}

abbrev params : GateParams
params = record { dry_run_hours = 1; max_gap_minutes = 60; min_buffer_cents = 50_000 }

gate_opens : evaluate_gate facts params 3_600_200 ≡ true
unfolding evaluate_gate window_of largest_gap
gate_opens = refl

evaluate_gate_open_example :
    (facts.approved_quote ≡ true)
    × (facts.initialized ≡ true)
    × (0 < facts.liquidity)
    × (50_000 * 10 ^ 18 ≤ facts.idle_usdc * 100)
    × (facts.router_bound ≡ true)
    × (facts.verify_passed ≡ true)
    × (starts_before 200 facts.events ≡ true)
    × IsSteady 3_600_000 200 3_600_200 (window_of 200 facts.events)
evaluate_gate_open_example = evaluate_gate_open facts params 3_600_200 gate_opens
