-- ===== src/Refund/Credit.antt =====
-- One order's refund (keepers/v3/refund/keeper.mjs: credit, creditBack, finishPending). The two
-- transactions of a refund go through the sender of lib/tx.mjs, which is seen here by what a call of a key comes
-- to; that a key was signed again and both of its transactions landed is one of the outcomes.
pub mod Money
mod Tests
use solonpad_contracts.Base.{
  Bool, List, Option, [], false, if◌then◌else◌, ltb, none, not, some, true, ℕ, ◌&&◌, ◌+◌, ◌||◌, ◌∷◌,
}

-- What a call of the sender comes to: not sent; sent and not mined; mined without the keeper learning it
-- in this call (its wait timed out); reported confirmed; or signed again and landed, though the key's earlier
-- transaction may have landed too, and reported confirmed.
pub data Call : Type 0 where
  unsent in_flight landed_unseen reported landed_again : Call

-- The journal record of an order's refund, and what has landed on chain of its three transactions: the
-- withdrawal from the hub float, the credit for the order, and the refill of the hub float.
pub record Refund : Type 0 where
  pub withdrawn : Option ℕ
  pub is_done : Bool
  pub returned : Bool
  pub out : Option ℕ
  pub credited : Option ℕ
  pub refilled : Option ℕ

abbrev pub untouched : Refund
untouched = record {
  withdrawn = none;
  is_done = false;
  returned = false;
  out = none;
  credited = none;
  refilled = none;
}

-- What has landed under a key after a call of `amount`. A call that hands the node the key's one transaction lands
-- unless that landed before.
pub land : Call → (amount : ℕ) → Option ℕ → Option ℕ
land landed_again amount (some before) = some (before + amount)
land landed_again amount none = some amount
land call amount (some before) = some before
land unsent amount none = none
land in_flight amount none = none
land landed_unseen amount none = some amount
land reported amount none = some amount

abbrev pub is_confirmed : Call → Bool
is_confirmed reported = true
is_confirmed landed_again = true
is_confirmed _ = false

-- The readings of one `credit`: whether the withdrawal's task was sent or confirmed before, the day's cap
-- and what it has used, the hub's free float, and what the two calls come to.
pub record Readings : Type 0 where
  pub resuming : Bool
  pub day_limit : ℕ
  pub available : ℕ
  pub withdrawal : Call
  pub payment : Call

-- `creditBack`: `done` is recorded once the credit is confirmed.
pub credit_back : Call → (amount : ℕ) → Refund → Refund
unfolding land
credit_back call amount r = record r {
  credited = land call amount r.credited;
  is_done = r.is_done || is_confirmed call;
}

-- A withdrawal that is allowed to go out.
pub withdraw : Readings → (need used : ℕ) → Refund → Refund × ℕ
withdraw e need used r =
    let sent = record r { out = land e.withdrawal need r.out } in
    if is_confirmed e.withdrawal
    then (credit_back e.payment need (record sent { withdrawn = some need }), used + need)
    else (sent, used)

-- `credit`, with the day's used total.
pub credit : Readings → (need used : ℕ) → Refund → Refund × ℕ
credit e need used r = elim r.withdrawn [
  | some amount ↦ (credit_back e.payment amount r, used)
  | none ↦
      if not e.resuming && ltb e.day_limit (used + need)
      then (r, used)
      else if not e.resuming && ltb e.available need
      then (r, used)
      else withdraw e need used r
]

-- The loop body of `finishPending`.
pub finish_pending : (still_needed : Bool) → Call → Refund → Refund
finish_pending still_needed call r = elim r.withdrawn [
  | none ↦ r
  | some amount ↦
      if r.is_done || r.returned || still_needed
      then r
      else record r { refilled = land call amount r.refilled; returned = is_confirmed call }
]

-- The keeper's steps on one order.
pub data Step : Type 0 where
  credits : Readings → (need used : ℕ) → Step
  finishes : (still_needed : Bool) → Call → Step

pub step : Step → Refund → Refund
unfolding credit withdraw credit_back land finish_pending
step (credits e need used) r = (credit e need used r).0
step (finishes still_needed call) r = finish_pending still_needed call r

pub run_steps : List Step → Refund → Refund
run_steps [] r = r
run_steps (s ∷ ss) r = run_steps ss (step s r)
