-- ===== src/Refund/Needs/Tests.antt =====
-- A failed buy.
use solonpad_contracts.Base.{none, refl, ◌+◌, ◌≡◌}
use solonpad_contracts.Refund.Needs.{Order, buy, failed_buy, half, refund_need, returning}
use solonpad_contracts.Refund.Needs.Amounts.{refund_need_lem}

abbrev failed : Order
failed = record {
  status = returning;
  kind = buy;
  outcome = 3;
  amount_in = 100;
  amount_out = 0;
  fee = 0;
  held = 10;
}

failed_need : refund_need failed none ≡ failed_buy 90
unfolding refund_need half
failed_need = refl

refund_need_lem_example :
    refund_need failed none ≡ failed_buy 90
    → (failed.kind ≡ buy)
      × (failed.status ≡ returning)
      × (failed.outcome ≡ 3)
      × (failed.held + 90 ≡ 100)
refund_need_lem_example = (refund_need_lem failed none 90).0
