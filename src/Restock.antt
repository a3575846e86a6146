-- ===== src/Restock.antt =====
-- The opening gate of stock-quote launches (keepers/v3/restock/gate.mjs: evaluateGate). The keeper's own float
-- decisions are not modelled. An event is its time and whether it is an anomaly; the list is sorted by time,
-- which JavaScript's sort does. `minBufferUsd` is in hundredths of a dollar.
pub mod Opening
mod Tests
use solonpad_contracts.Base.{
  Bool, List, [], false, if◌then◌else◌, leb, ltb, max, ℕ, ◌&&◌, ◌*◌, ◌+◌, ◌-◌, ◌==◌, ◌^◌, ◌∷◌,
}

pub record GateEvent : Type 0 where
  pub at : ℕ
  pub is_anomaly : Bool

pub record Facts : Type 0 where
  pub approved_quote : Bool
  pub initialized : Bool
  pub liquidity : ℕ
  pub idle_usdc : ℕ
  pub router_bound : Bool
  pub verify_passed : Bool
  pub events : List GateEvent

pub record GateParams : Type 0 where
  pub dry_run_hours : ℕ
  pub max_gap_minutes : ℕ
  pub min_buffer_cents : ℕ

-- `window`
pub window_of : (since : ℕ) → List GateEvent → List GateEvent
window_of since [] = []
window_of since (g ∷ gs) =
    let rest = window_of since gs in if leb since g.at then g ∷ rest else rest

-- The loop over the window: the largest gap, and the gap to now at its end.
pub largest_gap : (prev now : ℕ) → List GateEvent → ℕ
largest_gap prev now [] = now - prev
largest_gap prev now (g ∷ gs) = max (g.at - prev) (largest_gap g.at now gs)

-- The first event is no later than the window's start; otherwise the gap is infinite.
abbrev pub starts_before : (since : ℕ) → List GateEvent → Bool
starts_before since [] = false
starts_before since (g ∷ gs) = leb g.at since

abbrev pub count_anomalies : List GateEvent → ℕ
count_anomalies [] = 0
count_anomalies (g ∷ gs) = (if g.is_anomaly then 1 else 0) + count_anomalies gs

-- `evaluateGate`: whether it is open.
pub evaluate_gate : Facts → GateParams → (now_ms : ℕ) → Bool
evaluate_gate f p now =
    let since = now - p.dry_run_hours * 3_600_000 in
    let window = window_of since f.events in
    f.approved_quote
    && f.initialized
    && ltb 0 f.liquidity
    && leb (p.min_buffer_cents * 10 ^ 18) (f.idle_usdc * 100)
    && f.router_bound
    && f.verify_passed
    && (starts_before since f.events
        && leb (largest_gap since now window) (p.max_gap_minutes * 60_000))
    && count_anomalies window == 0
