-- ===== src/Ingress/Routing.antt =====
-- How a lot of platform fees is split, routed and moved on (keepers/v3/ingress/decide.mjs:
-- collectDecision, stockHalf, expectedRouting, lotNextAction).
pub mod Halves
pub mod Actions
mod Tests
use solonpad_contracts.Base.{Bool, false, if◌then◌else◌, ltb, true, ℕ, ◌%◌, ◌*◌, ◌+◌, ◌-◌, ◌/◌}

pub data Collect : Type 0 where
  below_threshold cost_too_high collect : Collect

-- `collectDecision`
pub collect_decision : (fees threshold cost max_cost_bps : ℕ) → Collect
collect_decision fees threshold cost max_cost_bps =
    if ltb fees threshold
    then below_threshold
    else if ltb (fees * max_cost_bps) (cost * 10_000)
    then cost_too_high
    else collect

pub record Half : Type 0 where
  pub stock : ℕ
  pub remainder : ℕ

-- `stockHalf`
unfoldable pub stock_half : (amount remainder : ℕ) → Half
stock_half amount remainder =
    let fraction = amount % 2 + remainder in
    record { stock = amount / 2 + fraction / 2; remainder = fraction % 2 }

-- `SourceKind`; any other kind throws in the source and cannot be written here.
pub data SourceKind : Type 0 where
  solon_v2 other_v2 : SourceKind

pub record Routing : Type 0 where
  pub stock_usdc18 : ℕ
  pub buyback_usdc18 : ℕ
  pub protocol_desk : Bool
  pub burn_raw : ℕ
  pub convert_raw : ℕ
  pub remainder : ℕ

-- `expectedRouting`; `native` is `token === ZERO`.
pub expected_routing : SourceKind → (native : Bool) → (amount remainder : ℕ) → Routing
unfolding stock_half
expected_routing solon_v2 native amount remainder =
    let h = stock_half amount remainder in
    if native
    then record {
      stock_usdc18 = h.stock;
      buyback_usdc18 = amount - h.stock;
      protocol_desk = false;
      burn_raw = 0;
      convert_raw = 0;
      remainder = h.remainder;
    }
    else record {
      stock_usdc18 = 0;
      buyback_usdc18 = 0;
      protocol_desk = false;
      burn_raw = amount - h.stock;
      convert_raw = h.stock;
      remainder = h.remainder;
    }
expected_routing other_v2 native amount remainder =
    if native
    then record {
      stock_usdc18 = 0;
      buyback_usdc18 = amount;
      protocol_desk = true;
      burn_raw = 0;
      convert_raw = 0;
      remainder = remainder;
    }
    else record {
      stock_usdc18 = 0;
      buyback_usdc18 = 0;
      protocol_desk = true;
      burn_raw = 0;
      convert_raw = amount;
      remainder = remainder;
    }

-- `IngressLot` and `RouterLot`.
pub data IngressLot : Type 0 where
  no_lot observed funded : IngressLot

pub data RouterLot : Type 0 where
  no_route raw_funded routed converting routed_done : RouterLot

pub data LotAction : Type 0 where
  record_lot await_audit fund quarantine finished waits route convert : LotAction

-- `lotNextAction`
unfoldable pub router_action : RouterLot → LotAction
router_action raw_funded = route
router_action routed = convert
router_action routed_done = finished
router_action _ = waits

abbrev is_finished : RouterLot → Bool
is_finished routed_done = true
is_finished _ = false

unfoldable pub lot_next_action :
    IngressLot → (admitted : Bool) → RouterLot → (native has_signatures : Bool) → LotAction
unfolding router_action
lot_next_action no_lot admitted at_router native has_signatures =
    if has_signatures then record_lot else await_audit
lot_next_action observed admitted at_router native has_signatures =
    if admitted then fund else quarantine
lot_next_action funded admitted at_router native has_signatures =
    if native then (if is_finished at_router then finished else waits) else router_action at_router
