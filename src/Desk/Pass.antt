-- ===== src/Desk/Pass.antt =====
-- One payout pass of the Desk keeper (keepers/v3/desk/decide.mjs: deskGasPlan, passUpdate). Gas numbers
-- are natural numbers: where the source would compute a negative room, `fit` is at most 0 there and 0
-- here, and both are raised to one card.
pub mod Progress
mod Tests
use solonpad_contracts.Base.{
  Bool, List, Option, [], false, if◌then◌else◌, leb, ltb, max, min, none, not, some, true, ℕ, ◌&&◌,
  ◌*◌, ◌+◌, ◌-◌, ◌/◌, ◌==◌, ◌||◌, ◌∷◌,
}

abbrev pub max_cards : ℕ
max_cards = 32

pub record GasConfig : Type 0 where
  pub max_tx_gas : ℕ
  pub fixed_gas : ℕ
  pub per_card_gas : ℕ
  pub per_key_card_gas : ℕ

pub record GasPlan : Type 0 where
  pub cards : ℕ
  pub gas_limit : ℕ
  pub reserve : ℕ

abbrev pub fit_cards : (per_card room wanted : ℕ) → ℕ
fit_cards per_card room wanted = if ltb 0 per_card then room / per_card else wanted

-- `deskGasPlan`
pub desk_gas_plan : GasConfig → (keys wanted : ℕ) → GasPlan
desk_gas_plan config keys wanted =
    let reserve = 500_000 * keys + 100_000 in
    let per_card = config.per_card_gas + config.per_key_card_gas * keys in
    let room = config.max_tx_gas - config.fixed_gas - reserve in
    let cards = max 1 (min wanted (min max_cards (fit_cards per_card room wanted))) in
    record {
      cards = cards;
      gas_limit = config.fixed_gas + reserve + cards * per_card;
      reserve = reserve;
    }

-- What the keeper stores of a queue: its cursor, the cards paid and failed in the pass so far, the full
-- passes and whether the queue is finished.
pub record PassRecord : Type 0 where
  pub cursor : ℕ
  pub pass_paid : ℕ
  pub pass_failed : ℕ
  pub passes : ℕ
  pub last_paid : ℕ
  pub last_failed : ℕ
  pub is_done : Bool

pub record Batch : Type 0 where
  pub start : ℕ
  pub after : ℕ
  pub upper_bound : ℕ
  pub paid : ℕ
  pub failed : ℕ

pub record Update : Type 0 where
  pub is_moved : Bool
  pub is_complete : Bool
  pub patch : Option PassRecord
  pub is_alert : Bool

-- `passUpdate`; an empty patch is `none`.
pub pass_update : (max_passes : ℕ) → PassRecord → Batch → Update
pass_update most rec b =
    let paid = rec.pass_paid + b.paid in
    let failed = rec.pass_failed + b.failed in
    let passes = rec.passes + 1 in
    let going = record rec { cursor = b.after; pass_paid = paid; pass_failed = failed } in
    let over = failed == 0 || leb most passes in
    let ended = record rec {
      cursor = b.after;
      passes = passes;
      pass_paid = 0;
      pass_failed = 0;
      last_paid = paid;
      last_failed = failed;
      is_done = rec.is_done || over;
    } in
    if b.after == b.start
    then record { is_moved = false; is_complete = false; patch = none; is_alert = false }
    else if not (b.after == b.upper_bound)
    then record { is_moved = true; is_complete = false; patch = some going; is_alert = false }
    else record {
      is_moved = true;
      is_complete = true;
      patch = some ended;
      is_alert = ltb 0 failed && leb most passes;
    }

-- The keeper stores the patch, when there is one, over the record it had.
pub applied : PassRecord → Option PassRecord → PassRecord
applied rec none = rec
applied rec (some patch) = patch

-- Runs batches until the queue is finished; the keeper skips a finished queue.
pub run_batches : (max_passes : ℕ) → PassRecord → List Batch → PassRecord
run_batches most rec [] = rec
run_batches most rec (b ∷ bs) =
    let next = run_batches most (applied rec (pass_update most rec b).patch) bs in
    if rec.is_done then rec else next
