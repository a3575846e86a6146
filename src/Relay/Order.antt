-- ===== src/Relay/Order.antt =====
-- Checking an untrusted executable quote (keepers/v3/lib/relay.mjs: validateRelayQuote). Fields are read as
-- in the deposit quote; the tests on the calldata's text are Booleans of the reading.
pub mod Signed
mod Tests
use solonpad_contracts.Base.{
  Bool, List, Option, Result, [], err, guard, includes, none, not, ok, or_else, some, ℕ, ◌&&◌, ◌==◌,
  ◌>>=◌, ◌>>◌, ◌∷◌,
}
use solonpad_contracts.Relay.Deposit.{agrees, is_amount, is_short}

pub record Calldata : Type 0 where
  pub selector : ℕ
  pub has_user : Bool

-- One step: whether it is a transaction, whether its id, if it has one, says deposit, and its items.
pub record Item : Type 0 where
  pub chain : ℕ
  pub target : ℕ
  pub from : Option ℕ
  pub value : Option ℕ
  pub calldata : Option Calldata

pub record Step : Type 0 where
  pub is_transaction : Bool
  pub is_deposit : Bool
  pub items : List Item

pub record RelayQuote : Type 0 where
  pub mentions_lifi : Bool
  pub steps : List Step
  pub out_chain : ℕ
  pub out_currency : ℕ
  pub out_minimum : Option ℕ
  pub out_amount : Option ℕ
  pub recipient : Option ℕ
  pub sender : Option ℕ
  pub in_amount : Option ℕ

pub record Expect : Type 0 where
  pub user : ℕ
  pub recipient : ℕ
  pub amount_wei : ℕ
  pub min_out6 : Option ℕ
  pub targets : List ℕ
  pub selectors : List ℕ
  pub origin_chain : ℕ
  pub destination_chain : ℕ
  pub destination_currency : ℕ

pub data Refusal : Type 0 where
  lifi not_one_step not_transaction not_deposit not_one_item bad_chain bad_target bad_from
        bad_value :
      Refusal
  no_calldata bad_selector user_unbound bad_output bad_details below_minimum : Refusal

-- What the keeper signs.
pub record Order : Type 0 where
  pub target : ℕ
  pub value : ℕ
  pub selector : ℕ
  pub amount_out6 : ℕ
  pub minimum_out6 : ℕ

abbrev pub one_of : {A : Type 0} → Refusal → List A → Result Refusal A
one_of e [] = err e
one_of e (x ∷ []) = ok x
one_of e (x ∷ (y ∷ ys)) = err e

abbrev pub given : {A : Type 0} → Refusal → Option A → Result Refusal A
given e none = err e
given e (some x) = ok x

-- The checks of the step's item, with its calldata.
pub check_item : Item → Calldata → Expect → Result Refusal (Unit {0})
check_item i c e = do
  guard (i.chain == e.origin_chain) bad_chain
  guard (includes e.targets i.target) bad_target
  guard (agrees i.from e.user) bad_from
  guard (is_amount i.value e.amount_wei) bad_value
  guard (includes e.selectors c.selector) bad_selector
  guard c.has_user user_unbound

-- The checks of the details.
pub check_details : RelayQuote → Expect → Result Refusal (Unit {0})
check_details q e = do
  guard (q.out_chain == e.destination_chain && q.out_currency == e.destination_currency) bad_output
  guard
      (agrees q.recipient e.recipient && agrees q.sender e.user && agrees q.in_amount e.amount_wei)
      bad_details
  guard (not (is_short e.min_out6 (or_else q.out_minimum (or_else q.out_amount 0)))) below_minimum

-- `validateRelayQuote`
pub validate_relay_quote : RelayQuote → Expect → Result Refusal Order
validate_relay_quote q e = do
  guard (not q.mentions_lifi) lifi
  s ← one_of not_one_step q.steps
  guard s.is_transaction not_transaction
  guard s.is_deposit not_deposit
  i ← one_of not_one_item s.items
  c ← given no_calldata i.calldata
  check_item i c e
  check_details q e
  let minimum = or_else q.out_minimum (or_else q.out_amount 0)
  ok (record {
    target = i.target;
    value = e.amount_wei;
    selector = c.selector;
    amount_out6 = or_else q.out_amount minimum;
    minimum_out6 = minimum;
  })
