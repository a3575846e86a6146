-- ===== src/Ingress/Lots/Tests.antt =====
-- A token lot that is approved, funded, routed and converted by the worlds 0 to 4, and its buyback.
use solonpad_contracts.Ingress.Buyback.{buyback_chunk, buyback_min_out}
use solonpad_contracts.Ingress.Routing.{
  IngressLot, RouterLot, funded, lot_next_action, observed, raw_funded, routed, router_action,
}
use solonpad_contracts.Ingress.Lots.Allowed.{IsAllowed, lots-IsAllowed}
use solonpad_contracts.Ingress.Lots.{
  Chain, LotRec, Params, State, advance_lot, advance_lots, buy_each, buy_one, by_action,
  convert_turn, distinct, run_buybacks, send,
}
use solonpad_contracts.Base.{
  All, [], false, if◌then◌else◌, leb, map, none, not, refl, true, ℕ, ◌+◌, ◌==◌, ◌^◌, ◌∷◌, ◌≡◌,
}

abbrev lot_state : ℕ → IngressLot
lot_state w = if leb 2 w then funded else observed

abbrev route_state : ℕ → RouterLot
route_state w = if leb 3 w then routed else raw_funded

abbrev chain_at : Chain ℕ
chain_at = record {
  has_auditors = true;
  has_prices = true;
  ingress_state = λ w lot. lot_state w;
  is_admitted = λ w lot. true;
  router_state = λ w lot. route_state w;
  auditors_agree = λ w lot. true;
  allowance = λ w lot. 0;
  has_converter = λ w lot. true;
  pending_kind = λ w lot. 2;
  next_slice = λ w lot. 21;
  value18 = λ w lot. 10 ^ 20;
  lp_fee_ppm = λ w lot. 3_000;
  buyback_lot =
      λ w id. record { budget = 10 ^ 20; spent = 0; executed = false; protocol_desk = false };
  solon_price = λ w. 10 ^ 18;
  can_sign = λ w op. true;
  bought = λ w op. (21, 5) ∷ [];
  call = λ w op. (w + 1, true);
}

abbrev params : Params
params = record { min_buy18 = 10 ^ 18; slippage_bps = 300 }

abbrev token_lot : LotRec
token_lot = record {
  lot_id = 20;
  native = false;
  amount = 7;
  is_done = false;
  is_quarantined = false;
  funded_at = none;
  buyback_lots = [];
}

abbrev usdc_lot : LotRec
usdc_lot = record token_lot { native = true }

abbrev start : (w : ℕ) → LotRec → State ℕ
start w r = record { world = w; lots = (1, r) ∷ []; burns = []; sends = []; thrown = false }

lots-IsAllowed_example :
    let advanced = advance_lots chain_at params 100 ((1, token_lot) ∷ []) (start 3 token_lot) in
    All (IsAllowed chain_at params 100) (run_buybacks chain_at params 100 advanced).sends
lots-IsAllowed_example = lots-IsAllowed chain_at params 100 (start 3 token_lot) tt

-- The conversion in the world 3 gives the slice that is bought back in the world 4.
lots_run :
    let advanced = advance_lots chain_at params 100 ((1, token_lot) ∷ []) (start 3 token_lot) in
    map (λ c. c.0) (run_buybacks chain_at params 100 advanced).sends ≡ 4 ∷ (3 ∷ [])
unfolding advance_lots advance_lot by_action convert_turn send run_buybacks buy_each buy_one
    distinct lot_next_action router_action buyback_chunk buyback_min_out
lots_run = refl

-- The node does not report the calls made in the world 1, which leave the world 2.
abbrev silent : Chain ℕ
silent = record chain_at { call = λ w op. (w + 1, not (w == 1)) }
