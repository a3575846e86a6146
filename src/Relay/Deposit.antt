-- ===== src/Relay/Deposit.antt =====
-- Checking an untrusted deposit quote (keepers/v3/lib/relay.mjs: validateDepositQuote). The fields of the
-- JSON are read as the source reads them: a missing one is `none`. Addresses and chain names are numbers,
-- an address without regard to case; the order id's text form and the search for "lifi" in the quote's text
-- are Booleans of the reading.
pub mod Bound
mod Tests
use solonpad_contracts.Base.{
  Bool, List, Option, Result, [], err, false, guard, if◌then◌else◌, length, ltb, none, not, ok,
  or_else, some, true, ℕ, ◌&&◌, ◌/◌, ◌==◌, ◌>>=◌, ◌>>◌, ◌∷◌,
}

pub record Refund : Type 0 where
  pub chain : ℕ
  pub recipient : ℕ

pub record Payment : Type 0 where
  pub recipient : ℕ
  pub currency : ℕ
  pub expected_amount : Option ℕ
  pub minimum_amount : Option ℕ

pub record Input : Type 0 where
  pub chain : ℕ
  pub currency : ℕ
  pub amount : Option ℕ
  pub refunds : List Refund

pub record Quote : Type 0 where
  pub mentions_lifi : Bool
  pub order_id : Option ℕ
  pub inputs : List Input
  pub output_chain : ℕ
  pub calls : List ℕ
  pub payments : List Payment
  pub deadline : ℕ
  pub details_recipient : Option ℕ
  pub details_sender : Option ℕ
  pub details_amount : Option ℕ
  pub details_minimum : Option ℕ

pub record Expectation : Type 0 where
  pub user : ℕ
  pub recipient : ℕ
  pub amount : ℕ
  pub origin_chain : ℕ
  pub destination_chain : ℕ
  pub payment_currency : Option ℕ
  pub destination_currency : ℕ
  pub min_out : Option ℕ
  pub native_scale : ℕ

pub data Rejected : Type 0 where
  lifi_route no_order_id not_one_input wrong_payment_chain wrong_currency wrong_amount : Rejected
  wrong_refund wrong_output_chain has_calls not_one_payment wrong_recipient : Rejected
  wrong_output_currency wrong_details too_little : Rejected

pub record Deposit : Type 0 where
  pub order_id : ℕ
  pub expected_out : ℕ
  pub minimum_out : ℕ
  pub deadline : ℕ

-- A field that may be missing, and must be the expected one otherwise.
abbrev pub agrees : Option ℕ → ℕ → Bool
agrees none x = true
agrees (some y) x = y == x

-- `expect.paymentCurrency && ...`: the expectation may be missing.
abbrev pub is_amount : Option ℕ → ℕ → Bool
is_amount none x = false
is_amount (some y) x = y == x

-- `refunds.find(r => r.chainId === originName)`
pub origin_refund : (chain : ℕ) → List Refund → Option Refund
origin_refund chain [] = none
origin_refund chain (r ∷ rs) =
    let rest = origin_refund chain rs in if r.chain == chain then some r else rest

abbrev pub refunds_to : (user : ℕ) → Option Refund → Bool
refunds_to user none = false
refunds_to user (some r) = r.recipient == user

-- `minOut != null && expected < minOut`
abbrev pub is_short : Option ℕ → ℕ → Bool
is_short none expected = false
is_short (some least) expected = ltb expected least

-- The checks of the input.
pub check_input : Input → Expectation → Result Rejected (Unit {0})
check_input i e = do
  guard (i.chain == e.origin_chain) wrong_payment_chain
  guard (agrees e.payment_currency i.currency) wrong_currency
  guard (is_amount i.amount (e.amount / e.native_scale)) wrong_amount
  guard (refunds_to e.user (origin_refund e.origin_chain i.refunds)) wrong_refund

-- The checks of the output and of the details.
pub check_output : Quote → Payment → Expectation → Result Rejected (Unit {0})
check_output q p e = do
  guard (p.recipient == e.recipient) wrong_recipient
  guard (p.currency == e.destination_currency) wrong_output_currency
  guard (agrees q.details_recipient e.recipient && agrees q.details_sender e.user) wrong_details
  guard (not (is_short e.min_out (or_else p.expected_amount (or_else q.details_amount 0))))
      too_little

-- A list that must have one element, and a field that must be there.
abbrev pub only : {A : Type 0} → Rejected → List A → Result Rejected A
only e [] = err e
only e (x ∷ []) = ok x
only e (x ∷ (y ∷ ys)) = err e

abbrev pub required : {A : Type 0} → Rejected → Option A → Result Rejected A
required e none = err e
required e (some x) = ok x

-- `validateDepositQuote`
pub validate_deposit_quote : Quote → Expectation → Result Rejected Deposit
validate_deposit_quote q e = do
  guard (not q.mentions_lifi) lifi_route
  id ← required no_order_id q.order_id
  i ← only not_one_input q.inputs
  check_input i e
  guard (q.output_chain == e.destination_chain) wrong_output_chain
  guard (length q.calls == 0) has_calls
  p ← only not_one_payment q.payments
  check_output q p e
  ok (record {
    order_id = id;
    expected_out = or_else p.expected_amount (or_else q.details_amount 0);
    minimum_out = or_else p.minimum_amount (or_else q.details_minimum 0);
    deadline = q.deadline;
  })
