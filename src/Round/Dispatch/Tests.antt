-- ===== src/Round/Dispatch/Tests.antt =====
-- A dispatch whose process dies after the funding left.
use solonpad_contracts.Base.{All, List, [], arith, false, inl, none, refl, true, ℕ, ◌<◌, ◌∷◌, ◌≡◌}
use solonpad_contracts.Round.Action.{
  Ctx, Round, funding, next_round_action, round_action, submitted_action,
}
use solonpad_contracts.Round.Dispatch.{
  Funding, Lane, Tick, died, dispatch_round, progress, returned, run_ticks,
}
use solonpad_contracts.Round.Dispatch.Once.{IsOnce, IsTrue, run_ticks-IsOnce}

abbrev waiting : Round
waiting = record { status = funding; deadline = 1_000; submitted_at = 0; cancel_requested = false }

abbrev reads_at : (now : ℕ) → Ctx
reads_at now = record {
  now = now;
  is_funded = false;
  dispatched = false;
  dispatched_at = 0;
  result = none;
  orphan_consumed = false;
  funding_alert_sec = 600;
  quarantine_after_sec = 3_600;
  cancel_after_sec = none;
}

abbrev tick_at : (now : ℕ) → Lane → Tick
tick_at now lane = record { round = waiting; ctx = reads_at now; execute = true; lane = lane }

abbrev not_funded : Funding
not_funded = record {
  rec = record { dispatch_started_at = none; dispatch_ambiguous = false };
  left = 0;
}

abbrev two_ticks : List Tick
two_ticks = tick_at 5 (died true) ∷ (tick_at 9 returned ∷ [])

two_ticks_positive : All (λ t. (0 < t.ctx.now) × IsTrue t.lane) two_ticks
two_ticks_positive = ((omega arith, tt), ((omega arith, tt), tt))

run_ticks-IsOnce_example : IsOnce (run_ticks two_ticks not_funded)
run_ticks-IsOnce_example = run_ticks-IsOnce two_ticks not_funded two_ticks_positive (inl refl)

-- The second tick sends nothing.
two_ticks_run : (run_ticks two_ticks not_funded).left ≡ 1
unfolding run_ticks progress dispatch_round next_round_action round_action submitted_action
two_ticks_run = refl
