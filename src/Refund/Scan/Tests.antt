-- ===== src/Refund/Scan/Tests.antt =====
-- Two failed buys: the credit of the first throws, and the second is overdue.
use solonpad_contracts.Refund.Needs.{buy, returning}
use solonpad_contracts.Refund.Scan.{OpenOrder, Params, threw}
use solonpad_contracts.Base.{none, true, ℕ}

abbrev params : Params
params = record {
  max_per_tick = 1;
  proceeds_grace_sec = 600;
  refund_overdue_sec = 1_800;
  lz_stuck_sec = 1_800;
}

abbrev failed_order : (id : ℕ) → OpenOrder
failed_order id = record {
  id = id;
  order = record {
    status = returning;
    kind = buy;
    outcome = 3;
    amount_in = 10;
    amount_out = 0;
    fee = 0;
    held = 0;
  };
  settled_at = 100;
  dispatched_at = 0;
  reads = true;
  rh_proceeds = none;
  attempt = threw;
}
