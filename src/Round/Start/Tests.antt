-- ===== src/Round/Start/Tests.antt =====
-- A start with a new order.
use solonpad_contracts.Market.{market_defaults}
use solonpad_contracts.Base.{false, none, some, true, ℕ, ◌*◌, ◌+◌, ◌-◌, ◌^◌, ◌≡◌, ◌≤◌}
use solonpad_contracts.Round.Budget.{RoundCosts}
use solonpad_contracts.Round.Start.{
  Plan, Readings, arc_reading, confirmed, insufficient_value, on_start_rejected, replan, reusable,
  updated,
}
use solonpad_contracts.Round.Start.Admitted.{on_start_rejected_lem}

abbrev costs : RoundCosts
costs = record { fees18 = 30; fixed_cost18 = 20; hub_fee18 = 10; relay_fee18 = 15; lz_fee18 = 5 }

abbrev readings : Readings
readings = record {
  now = 100;
  market = some market_defaults;
  ny = record { dow = 3; minute = 720; date = 20_502 };
  feed = updated 60;
  arc = arc_reading (record {
    status = 1;
    observed_at = 90;
    relayed_price18 = 7;
    price_usd18 = 7;
    max_age = 3_600;
    underlying = 1;
  });
  margin = 60;
  price = some 7;
  min_raw = 9;
  costs = some (some costs);
  quote_ttl = 600;
  fee_balance = 0;
  deposit = confirmed;
  is_signed = true;
  start = confirmed;
}

abbrev total : ℕ
total = 150 * 10 ^ 18

abbrev limit : ℕ
limit = 1_000 * 10 ^ 18

abbrev new_order : Plan
new_order = record {
  deadline = 700;
  expired = false;
  total = total;
  min_raw = 9;
  fees18 = 30;
  fixed_cost18 = 20;
}

-- The order as it is stored after a start that was short of fees by 6.
abbrev saved_order : Plan
saved_order = on_start_rejected (insufficient_value 4 10) new_order

on_start_rejected_lem_example :
    (30 ≤ (on_start_rejected (insufficient_value 4 10) new_order).fees18)
    × (10 ≤ 4 + ((on_start_rejected (insufficient_value 4 10) new_order).fees18 - 30))
    × (reusable 100 (some (on_start_rejected replan new_order)) ≡ none)
on_start_rejected_lem_example = on_start_rejected_lem (insufficient_value 4 10) new_order 100 4 10
