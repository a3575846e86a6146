-- ===== src/Round/Dispatch.antt =====
-- Dispatching a round's funding (keepers/v3/round/keeper.mjs: dispatchFunding, and the part of
-- progressRound that decides on it). The funding lane is an argument: a call of it ends in one of three ways, or
-- the process dies in it. An error that means "not sent" may be wrong about that: the launcher's lane
-- (launcher/keeper.mjs) says "queued" also when a launch that it sent has not been confirmed yet.
pub mod Once
mod Tests
use solonpad_contracts.Base.{
  Bool, List, Option, [], false, if◌then◌else◌, none, not, some, true, ℕ, ◌+◌, ◌==◌, ◌∷◌,
}
use solonpad_contracts.Round.Action.{Action, Ctx, Round, dispatch_funding, next_round_action}

-- What the lane's `dispatch` comes to: it returned; it threw an error that `definitelyNotSent` knows; it threw another
-- error; the process died in the call. In each of the last three, whether the funding had left.
pub data Lane : Type 0 where
  returned : Lane
  not_sent threw died : (left : Bool) → Lane

-- The journal's record of a round: when its dispatch started, and whether its outcome is unknown.
pub record RoundRecord : Type 0 where
  pub dispatch_started_at : Option ℕ
  pub dispatch_ambiguous : Bool

-- How often the funding left, with the record.
pub record Funding : Type 0 where
  pub rec : RoundRecord
  pub left : ℕ

abbrev pub left_by : Lane → ℕ
left_by returned = 1
left_by (not_sent left) = if left then 1 else 0
left_by (threw left) = if left then 1 else 0
left_by (died left) = if left then 1 else 0

-- `dispatchFunding`: the intent is stored before the lane is called.
pub dispatch_round : (execute : Bool) (now : ℕ) → Lane → Funding → Funding
dispatch_round execute now lane f =
    let stored = record f.rec { dispatch_started_at = some now } in
    let final = elim lane as (λ _. RoundRecord) [
      | returned ↦ stored
      | not_sent left ↦ record stored { dispatch_started_at = none }
      | threw left ↦ record stored { dispatch_ambiguous = true }
      | died left ↦ stored
    ] in
    if execute then record { rec = final; left = f.left + left_by lane } else f

-- `Boolean(rec.dispatchStartedAt)`
abbrev pub is_started : Option ℕ → Bool
is_started none = false
is_started (some at) = not (at == 0)

abbrev pub started_at : Option ℕ → ℕ
started_at none = 0
started_at (some at) = at

-- What one tick reads of the round, apart from its record.
pub record Tick : Type 0 where
  pub round : Round
  pub ctx : Ctx
  pub execute : Bool
  pub lane : Lane

-- The dispatch case of the `switch`; no other case changes the record's dispatch.
abbrev pub taken : Action → (dispatched unchanged : Funding) → Funding
taken dispatch_funding g f = g
taken _ g f = f

-- The part of `progressRound` on one round: the context takes the record's dispatch.
pub progress : Tick → Funding → Funding
progress t f =
    let started = f.rec.dispatch_started_at in
    let ctx = record t.ctx {
      dispatched = is_started started;
      dispatched_at = started_at started;
    } in
    taken (next_round_action t.round ctx) (dispatch_round t.execute t.ctx.now t.lane f) f

pub run_ticks : List Tick → Funding → Funding
run_ticks [] f = f
run_ticks (t ∷ ts) f = run_ticks ts (progress t f)
