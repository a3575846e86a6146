-- ===== src/Round/Action.antt =====
-- The next step of the keeper for a round on chain (keepers/v3/round/decide.mjs: nextRoundAction). The
-- reason texts of a step are left out; the alert's two texts belong to its two levels.
use solonpad_contracts.Base.{
  Bool, Option, false, if◌then◌else◌, leb, ltb, max, none, not, some, ℕ, ◌&&◌, ◌*◌, ◌+◌, ◌==◌, ◌||◌,
}

abbrev pub cancel_min_age : ℕ
cancel_min_age = 30 * 60

-- `Status`; a number above 8 is `unknown`.
pub data Status : Type 0 where
  none_yet reserved funding funded submitted settled quarantined refunded cancelled_unsent unknown :
      Status

-- The fields of the on-chain round that the decision reads.
pub record Round : Type 0 where
  pub status : Status
  pub deadline : ℕ
  pub submitted_at : ℕ
  pub cancel_requested : Bool

-- `ctx`: what the keeper read and remembers; `result` is the status of a probed result.
pub record Ctx : Type 0 where
  pub now : ℕ
  pub is_funded : Bool
  pub dispatched : Bool
  pub dispatched_at : ℕ
  pub result : Option ℕ
  pub orphan_consumed : Bool
  pub funding_alert_sec : ℕ
  pub quarantine_after_sec : ℕ
  pub cancel_after_sec : Option ℕ

pub data Level : Type 0 where
  quarantine_watch quarantine : Level

pub data Action : Type 0 where
  cancel_unsent start finalize poke dispatch_funding submit request_cancel wait done : Action
  alert : Level → (since : ℕ) → Action

-- `ctx.result && ctx.result.status === n`
abbrev pub result_is : Option ℕ → ℕ → Bool
result_is none n = false
result_is (some s) n = s == n

-- `ctx.cancelAfterSec != null && now >= submittedAt + max(CANCEL_MIN_AGE, cancelAfterSec)`
abbrev pub cancel_due : Option ℕ → (now submitted_at : ℕ) → Bool
cancel_due none now at = false
cancel_due (some sec) now at = leb (at + max cancel_min_age sec) now

-- The part of the `Submitted` and `Quarantined` cases that a submitted round reaches.
unfoldable pub submitted_action : Round → Ctx → Action
submitted_action r ctx =
    if result_is ctx.result 1 || result_is ctx.result 2
    then finalize
    else if cancel_due ctx.cancel_after_sec ctx.now r.submitted_at && not r.cancel_requested
    then request_cancel
    else if ltb (r.submitted_at + ctx.quarantine_after_sec) ctx.now
    then alert quarantine r.submitted_at
    else wait

-- The `switch` of `nextRoundAction`.
unfoldable pub round_action : Status → Round → Ctx → Action
round_action reserved r ctx = if ltb r.deadline ctx.now then cancel_unsent else start
round_action funding r ctx =
    if result_is ctx.result 2
    then finalize
    else if ctx.is_funded
    then poke
    else if not ctx.dispatched
    then dispatch_funding
    else if ltb (ctx.dispatched_at + ctx.funding_alert_sec) ctx.now
    then alert quarantine_watch ctx.dispatched_at
    else wait
round_action funded r ctx = if result_is ctx.result 2 then finalize else submit
round_action submitted r ctx = submitted_action r ctx
round_action quarantined r ctx =
    if r.submitted_at == 0
    then (if ctx.is_funded then poke else if result_is ctx.result 2 then finalize else wait)
    else submitted_action r ctx
round_action refunded r ctx =
    if not ctx.orphan_consumed && result_is ctx.result 1 then finalize else done
round_action settled r ctx = done
round_action cancelled_unsent r ctx = done
round_action _ r ctx = wait

-- `nextRoundAction`
unfoldable pub next_round_action : Round → Ctx → Action
next_round_action r ctx = round_action r.status r ctx
