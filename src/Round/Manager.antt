-- ===== src/Round/Manager.antt =====
-- The life of one round in the contract (src/v3/RewardRoundManager.sol): start, poke, submit,
-- cancelUnsent, requestCancel and finalize, on the fields that their guards read. `none` is a revert.
-- The adapter is outside the contract: what it answers in a call is the environment of the call. The
-- entries' amounts and the vault's transfers follow the same branches and are left out.
pub mod Life
pub mod Keeper
mod Tests
use solonpad_contracts.Base.{
  Bool, Option, false, if◌then◌else◌, leb, none, not, some, true, ℕ, ◌&&◌, ◌+◌, ◌==◌, ◌||◌,
}
use solonpad_contracts.Round.Action.{
  Round, Status, cancel_min_age, cancelled_unsent, funded, funding, quarantined, refunded, reserved,
  settled, submitted,
}

pub record ChainRound : Type 0 where
  pub view : Round
  pub orphan_consumed : Bool
  pub budget18 : ℕ
  pub min_raw_out : ℕ

-- One call's environment: block.timestamp, whether `startFunding` goes through, `funded(orderId)`, and
-- what `consumeResult` returns, with whether the vault's balances moved by exactly that; `others_go` is whether
-- every other call of the adapter, the capacity and the batcher that the transaction makes goes through (a
-- paused hub, for one, makes the adapter's `submit` revert).
pub record Env : Type 0 where
  pub timestamp : ℕ
  pub starts : Bool
  pub is_funded : Bool
  pub outcome : ℕ
  pub raw : ℕ
  pub refund : ℕ
  pub receipt_ok : Bool
  pub others_go : Bool

abbrev with_status : ChainRound → Status → ChainRound
with_status c s = record c { view = record (c.view) { status = s } }

abbrev require : Bool → ChainRound → Option ChainRound
require test c = if test then some c else none

abbrev pub is_status : Status → Status → Bool
is_status reserved reserved = true
is_status funding funding = true
is_status funded funded = true
is_status submitted submitted = true
is_status settled settled = true
is_status quarantined quarantined = true
is_status refunded refunded = true
is_status cancelled_unsent cancelled_unsent = true
is_status _ _ = false

-- `start`
pub start_round : Env → ChainRound → Option ChainRound
start_round env c =
    require (is_status c.view.status reserved && leb env.timestamp c.view.deadline && env.starts)
      (with_status c funding)

-- `poke`
pub poke_round : Env → ChainRound → Option ChainRound
poke_round env c =
    require
      ((is_status c.view.status funding
          || (is_status c.view.status quarantined && c.view.submitted_at == 0))
        && env.is_funded)
      (with_status c funded)

-- `submit`
pub submit_round : Env → ChainRound → Option ChainRound
submit_round env c =
    require (is_status c.view.status funded && env.others_go)
      (record c { view = record (c.view) { status = submitted; submitted_at = env.timestamp } })

-- `cancelUnsent`
pub cancel_unsent_round : Env → ChainRound → Option ChainRound
cancel_unsent_round env c =
    require (is_status c.view.status reserved && env.others_go) (with_status c cancelled_unsent)

-- `requestCancel`
pub request_cancel_round : Env → ChainRound → Option ChainRound
request_cancel_round env c =
    require
      ((is_status c.view.status submitted || is_status c.view.status quarantined)
        && not (c.view.submitted_at == 0)
        && leb (c.view.submitted_at + cancel_min_age) env.timestamp
        && not c.view.cancel_requested
        && env.others_go)
      (record c { view = record (c.view) { cancel_requested = true } })

abbrev may_finalize : ChainRound → Bool
may_finalize c =
    is_status c.view.status submitted
    || is_status c.view.status quarantined
    || is_status c.view.status funding
    || is_status c.view.status funded
    || (is_status c.view.status refunded && not c.orphan_consumed)

-- The body of `finalize` behind its first two `require`s.
pub settle : Env → ChainRound → Option ChainRound
settle env c =
    let late = is_status c.view.status refunded in
    if env.outcome == 0
    then require (env.raw == 0 && env.refund == 0 && not late) c
    else if env.outcome == 2
    then require (not late && env.raw == 0 && env.refund == c.budget18) (with_status c refunded)
    else require
        (env.outcome == 1
          && not (c.view.submitted_at == 0)
          && leb c.min_raw_out env.raw
          && env.refund == 0)
        (if late then record c { orphan_consumed = true } else with_status c settled)

-- `finalize`
pub finalize_round : Env → ChainRound → Option ChainRound
finalize_round env c =
    let settled_now = settle env c in
    if may_finalize c && env.receipt_ok && env.others_go then settled_now else none

-- The calls that anyone may make on a round.
pub data Call : Type 0 where
  do_start do_poke do_submit do_cancel_unsent do_request_cancel do_finalize : Call

pub call : Call → Env → ChainRound → Option ChainRound
call do_start = start_round
call do_poke = poke_round
call do_submit = submit_round
call do_cancel_unsent = cancel_unsent_round
call do_request_cancel = request_cancel_round
call do_finalize = finalize_round
