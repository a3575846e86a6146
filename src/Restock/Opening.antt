-- ===== src/Restock/Opening.antt =====
-- The gate opens only on a continuous, clean dry run.
use solonpad_contracts.Base.{
  List, [], arith, false, true, ℕ, ◌*◌, ◌+◌, ◌-◌, ◌<◌, ◌^◌, ◌∷◌, ◌≡◌, ◌≤◌,
}
use solonpad_contracts.Restock.{
  Facts, GateEvent, GateParams, count_anomalies, evaluate_gate, largest_gap, starts_before,
  window_of,
}

-- No event of the list is an anomaly, and each comes at most `gap` after the one before, as `now` after the last.
abbrev pub IsSteady : (gap prev now : ℕ) → List GateEvent → Type 0
IsSteady gap prev now [] = now ≤ prev + gap
IsSteady gap prev now (g ∷ gs) =
    (g.at ≤ prev + gap) × (g.is_anomaly ≡ false) × IsSteady gap g.at now gs

steady :
    (gap prev now : ℕ) (gs : List GateEvent)
    → largest_gap prev now gs ≤ gap
    → count_anomalies gs ≡ 0
    → IsSteady gap prev now gs
unfolding largest_gap
steady gap prev now [] h c = omega arith
steady gap prev now (g ∷ gs) h c =
    let clean : g.is_anomaly ≡ false = ground arith in
    (omega arith, clean, steady gap g.at now gs (omega arith) (ground (arith, clean)))

-- The gate opens only when the quote is approved, the pool initialized with liquidity, the router bound and
-- verified, the idle buffer reaches the minimum, and the dry run started before the window and in it never
-- paused longer than the allowed gap nor had an anomaly.
pub evaluate_gate_open :
    (f : Facts) (p : GateParams) (now : ℕ)
    → evaluate_gate f p now ≡ true
    → let since = now - p.dry_run_hours * 3_600_000 in
      (f.approved_quote ≡ true)
      × (f.initialized ≡ true)
      × (0 < f.liquidity)
      × (p.min_buffer_cents * 10 ^ 18 ≤ f.idle_usdc * 100)
      × (f.router_bound ≡ true)
      × (f.verify_passed ≡ true)
      × (starts_before since f.events ≡ true)
      × IsSteady (p.max_gap_minutes * 60_000) since now (window_of since f.events)
unfolding evaluate_gate
evaluate_gate_open f p now h =
    let since = now - p.dry_run_hours * 3_600_000 in
    let window = window_of since f.events in
    let calm : largest_gap since now window ≤ p.max_gap_minutes * 60_000 = ground arith in
    let clean : count_anomalies window ≡ 0 = ground arith in
    let even = steady (p.max_gap_minutes * 60_000) since now window calm clean in
    (
      ground arith,
      ground arith,
      ground arith,
      ground arith,
      ground arith,
      ground arith,
      ground arith,
      even,
    )
