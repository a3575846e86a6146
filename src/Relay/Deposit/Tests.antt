-- ===== src/Relay/Deposit/Tests.antt =====
-- A quote that is accepted.
use solonpad_contracts.Base.{
  [], false, get_elem?, length, none, ok, refl, some, ℕ, ◌*◌, ◌/◌, ◌^◌, ◌∷◌, ◌≡◌,
}
use solonpad_contracts.Relay.Deposit.{
  Deposit, Expectation, Input, Payment, Quote, check_input, check_output, is_short, origin_refund,
  validate_deposit_quote,
}
use solonpad_contracts.Relay.Deposit.Bound.{validate_deposit_quote-ok}

abbrev input : Input
input = record {
  chain = 5_042;
  currency = 36;
  amount = some 9;
  refunds = record { chain = 5_042; recipient = 1 } ∷ [];
}

abbrev payment : Payment
payment = record { recipient = 2; currency = 77; expected_amount = some 9; minimum_amount = none }

abbrev quote : Quote
quote = record {
  mentions_lifi = false;
  order_id = some 3;
  inputs = input ∷ [];
  output_chain = 4_663;
  calls = [];
  payments = payment ∷ [];
  deadline = 0;
  details_recipient = none;
  details_sender = some 1;
  details_amount = none;
  details_minimum = none;
}

abbrev expect : Expectation
expect = record {
  user = 1;
  recipient = 2;
  amount = 9 * 10 ^ 12;
  origin_chain = 5_042;
  destination_chain = 4_663;
  payment_currency = some 36;
  destination_currency = 77;
  min_out = some 8;
  native_scale = 10 ^ 12;
}

abbrev accepted_deposit : Deposit
accepted_deposit = record { order_id = 3; expected_out = 9; minimum_out = 0; deadline = 0 }

quote_accepted : validate_deposit_quote quote expect ≡ ok accepted_deposit
unfolding validate_deposit_quote check_input check_output origin_refund
quote_accepted = refl

validate_deposit_quote-ok_example :
    (i : Input) × (p : Payment) × (quote.inputs ≡ i ∷ [])
    × (quote.payments ≡ p ∷ [])
    × (quote.order_id ≡ some 3)
    × (i.chain ≡ expect.origin_chain)
    × (i.amount ≡ some (expect.amount / expect.native_scale))
    × (quote.output_chain ≡ expect.destination_chain)
    × (length quote.calls ≡ 0)
    × (p.recipient ≡ expect.recipient)
    × (p.currency ≡ expect.destination_currency)
    × (is_short expect.min_out 9 ≡ false)
    × ((k : ℕ) × (get_elem? i.refunds k
          ≡ some (record { chain = expect.origin_chain; recipient = expect.user })))
validate_deposit_quote-ok_example =
    validate_deposit_quote-ok quote expect accepted_deposit quote_accepted
