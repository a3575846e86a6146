-- ===== src/Round/Manager/Tests.antt =====
-- A round at concrete moments of its life.
use solonpad_contracts.Base.{false, none, refl, some, true, ℕ, ◌≡◌}
use solonpad_contracts.Round.Action.{Ctx, Round, Status, settled, submitted}
use solonpad_contracts.Round.Manager.{ChainRound, Env, call, do_finalize, finalize_round, settle}

abbrev view_at : Status → (submitted_at : ℕ) → Round
view_at s at = record { status = s; deadline = 1_000; submitted_at = at; cancel_requested = false }

abbrev round_at : Status → (submitted_at : ℕ) → ChainRound
round_at s at = record {
  view = view_at s at;
  orphan_consumed = false;
  budget18 = 700;
  min_raw_out = 5;
}

abbrev ctx_at : (now result : ℕ) → Ctx
ctx_at now result = record {
  now = now;
  is_funded = true;
  dispatched = true;
  dispatched_at = 1;
  result = some result;
  orphan_consumed = false;
  funding_alert_sec = 600;
  quarantine_after_sec = 3_600;
  cancel_after_sec = none;
}

abbrev env_at : (now outcome raw : ℕ) → Env
env_at now outcome raw = record {
  timestamp = now;
  starts = true;
  is_funded = true;
  outcome = outcome;
  raw = raw;
  refund = 0;
  receipt_ok = true;
  others_go = true;
}

-- A fill that is proven after the submission settles the round.
finalize_run : call do_finalize (env_at 90 1 6) (round_at submitted 50) ≡ some (round_at settled 50)
unfolding call finalize_round settle
finalize_run = refl
