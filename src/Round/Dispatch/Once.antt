-- ===== src/Round/Dispatch/Once.antt =====
-- A round is funded at most once.
use solonpad_contracts.Base.{All, Bool, List, [], arith, false, refl, true, ℕ, ◌<◌, ◌∷◌, ◌≡◌, ◌⊎◌}
use solonpad_contracts.Round.Action.{
  Action, Ctx, Round, Status, alert, cancel_unsent, dispatch_funding, done, finalize, funding,
  next_round_action, poke, request_cancel, round_action, start, submit, submitted_action, wait,
}
use solonpad_contracts.Round.Dispatch.{
  Funding, Lane, Tick, died, dispatch_round, is_started, not_sent, progress, returned, run_ticks,
  started_at, taken, threw,
}

-- The funding left at most once, and only under a stored intent.
abbrev pub IsOnce : Funding → Type 0
IsOnce f = (f.left ≡ 0) ⊎ ((f.left ≡ 1) × (is_started f.rec.dispatch_started_at ≡ true))

-- A dispatch is decided on only for an unfunded round in Funding whose record has no started dispatch.
dispatch_needs :
    (s : Status) (r : Round) (ctx : Ctx)
    → round_action s r ctx ≡ dispatch_funding
    → (s ≡ funding) × (ctx.is_funded ≡ false) × (ctx.dispatched ≡ false)
unfolding round_action submitted_action
dispatch_needs s r ctx h = ground arith

-- A lane that says "not sent" only of funding that has not left.
abbrev pub IsTrue : Lane → Type 0
IsTrue (not_sent left) = left ≡ false
IsTrue _ = Unit

dispatch-IsOnce :
    (execute : Bool) (now : ℕ) (lane : Lane) (f : Funding)
    → 0 < now
    → IsTrue lane
    → is_started f.rec.dispatch_started_at ≡ false
    → IsOnce f
    → IsOnce (dispatch_round execute now lane f)
unfolding dispatch_round
dispatch-IsOnce execute now returned f pos true_lane fresh h = ground arith
dispatch-IsOnce execute now (not_sent left) f pos true_lane fresh h = ground arith
dispatch-IsOnce execute now (threw left) f pos true_lane fresh h = ground arith
dispatch-IsOnce execute now (died left) f pos true_lane fresh h = ground arith

taken-IsOnce :
    (a : Action) (g f : Funding)
    → (a ≡ dispatch_funding → IsOnce g)
    → IsOnce f
    → IsOnce (taken a g f)
taken-IsOnce dispatch_funding g f k h = k refl
taken-IsOnce cancel_unsent g f k h = h
taken-IsOnce start g f k h = h
taken-IsOnce finalize g f k h = h
taken-IsOnce poke g f k h = h
taken-IsOnce submit g f k h = h
taken-IsOnce request_cancel g f k h = h
taken-IsOnce wait g f k h = h
taken-IsOnce done g f k h = h
taken-IsOnce (alert level since) g f k h = h

progress-IsOnce :
    (t : Tick) (f : Funding) → 0 < t.ctx.now → IsTrue t.lane → IsOnce f → IsOnce (progress t f)
unfolding progress next_round_action
progress-IsOnce t f pos true_lane h =
    let started = f.rec.dispatch_started_at in
    let ctx = record t.ctx {
      dispatched = is_started started;
      dispatched_at = started_at started;
    } in
    let next = dispatch_round t.execute t.ctx.now t.lane f in
    taken-IsOnce (next_round_action t.round ctx) next f
      (λ e.
        let (in_funding, unfunded, fresh) = dispatch_needs t.round.status t.round ctx e in
        dispatch-IsOnce t.execute t.ctx.now t.lane f pos true_lane fresh h)
      h

-- Over any ticks, whatever the chain shows, and whether the lane returns, throws or the process dies in it and
-- is restarted, the funding of a round leaves at most once, and only under an intent that was stored before; as long
-- as the lane says "not sent" only of funding that has not left.
pub run_ticks-IsOnce :
    (ticks : List Tick) (f : Funding)
    → All (λ t. (0 < t.ctx.now) × IsTrue t.lane) ticks
    → IsOnce f
    → IsOnce (run_ticks ticks f)
unfolding run_ticks
run_ticks-IsOnce [] f clocks h = h
run_ticks-IsOnce (t ∷ ts) f (now, clocks) h =
    run_ticks-IsOnce ts (progress t f) clocks (progress-IsOnce t f now.0 now.1 h)
