-- ===== src/Refund/Needs/Amounts.antt =====
-- What the keeper asks for makes the order whole.
use solonpad_contracts.Base.{Option, arith, some, ℕ, ◌*◌, ◌+◌, ◌<◌, ◌≡◌, ◌≢◌, ◌≤◌}
use solonpad_contracts.Refund.Needs.{
  Order, buy, failed_buy, half, no_need, proceeds, refund_need, returning, sell, unpaid_sell,
}

-- A credit makes a failed buy's held money its whole principal, and an unpaid sell's its gross proceeds; a
-- sell is credited only when its proceeds have left the other chain. Nothing is asked for an order of which
-- at least half is already held, and nothing in any other status.
pub refund_need_lem :
    (o : Order) (rh : Option ℕ) (credit : ℕ)
    → (refund_need o rh ≡ failed_buy credit
        → (o.kind ≡ buy)
          × (o.status ≡ returning)
          × (o.outcome ≡ 3)
          × (o.held + credit ≡ o.amount_in))
      × (refund_need o rh ≡ unpaid_sell credit
          → (o.kind ≡ sell)
            × (o.status ≡ proceeds)
            × (rh ≡ some 0)
            × (o.held + credit ≡ o.amount_out + o.fee))
      × (o.kind ≡ buy → o.amount_in ≤ o.held * 2 → 0 < o.held → refund_need o rh ≡ no_need)
      × (o.kind ≡ sell → o.amount_out ≤ o.held * 2 → 0 < o.held → refund_need o rh ≡ no_need)
      × (o.status ≢ returning → o.status ≢ proceeds → refund_need o rh ≡ no_need)
unfolding refund_need half
refund_need_lem o rh credit = ground arith
