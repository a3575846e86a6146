-- ===== src/Launcher/Fills/Tests.antt =====
-- A launch that landed unseen, and one that is watched.
use solonpad_contracts.Relay.Fees.{above, plan_route_fee, round_up, try_route}
use solonpad_contracts.Launcher.Fills.Watched.{unseen_launch_unwatched}
use solonpad_contracts.Launcher.Fills.{relay_failure, watch_fill}
use solonpad_contracts.Launcher.Launch.Afforded.{IsAfforded, launch_heads-IsAfforded}
use solonpad_contracts.Launcher.Launch.{
  Chain, HubStatus, State, confirmed, launch_heads, launch_one, launch_rec, not_confirmed,
  other_status, pending, plan_in, skipped,
}
use solonpad_contracts.Launcher.Planning.{
  Params, Quoted, plan_launch, planned, short_bps_of, verified,
}
use solonpad_contracts.Base.{
  All, [], arith, if◌then◌else◌, none, refl, some, true, ℕ, ◌/◌, ◌==◌, ◌^◌, ◌≡◌, ◌≢◌,
}

abbrev params : Params
params = record {
  max_per_tick = 2;
  lz_fee_buffer_bps = 1_000;
  max_shortfall_bps = 100;
  shortfall_alert_bps = 10;
  fill_alert_sec = 900;
  queue_alert_sec = 3_600;
  fail_alert_after = 3;
}

-- The world 0 has the order 5 queued, the world 1 has it on its way.
abbrev at_status : ℕ → HubStatus
at_status w = if w == 0 then pending else other_status

abbrev scheduler : Chain ℕ
scheduler = record {
  next_launch = λ w. if w == 0 then some 5 else none;
  status = λ w id. at_status w;
  is_public = λ w id. true;
  order = λ w id. record { amount_in = 10 ^ 18; extra = 10 ^ 18 };
  created_at = λ w id. 0;
  lz_fee = λ w id. 10 ^ 15;
  is_quotable = λ w id. true;
  quote = λ w amount. record { expected_out = amount / 10 ^ 12; order_id = 1; request_id = 2 };
  can_sign = λ w id. true;
  proof = λ w op. verified;
  call = λ w op. (1, confirmed);
}

-- The node does not report the call, which leaves the world 1.
abbrev silent : Chain ℕ
silent = record scheduler { call = λ w op. (1, not_confirmed) }

abbrev full_quote : ℕ → Quoted
full_quote amount = record { expected_out = amount / 10 ^ 12; order_id = 1; request_id = 2 }

not_queued : other_status ≢ pending
not_queued = ground arith

abbrev queued_start : State ℕ
queued_start = record { world = 0; launches = []; sends = []; alerts = [] }

launch_planned : plan_in silent params 100 0 5 ≡ planned 0 (full_quote (10 ^ 18)) 0
unfolding plan_launch short_bps_of plan_route_fee try_route round_up above
launch_planned = refl

unseen_launch_unwatched_example :
    let after = (launch_one silent params 100 5 queued_start).1 in
    (launch_one silent params 5_000 5 after ≡ (skipped, after))
    × (watch_fill 5 5_000 params (launch_rec 5 after) relay_failure ≡ (launch_rec 5 after, none))
unseen_launch_unwatched_example =
    unseen_launch_unwatched silent params 100 5 0 0 5_000 (full_quote (10 ^ 18)) queued_start
      relay_failure refl (refl, refl, refl, launch_planned) refl not_queued

launch_heads-IsAfforded_example :
    All (IsAfforded scheduler params 100) (launch_heads scheduler params 100 2 queued_start).1.sends
launch_heads-IsAfforded_example = launch_heads-IsAfforded scheduler params 100 2 queued_start tt
