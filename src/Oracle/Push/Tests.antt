-- ===== src/Oracle/Push/Tests.antt =====
-- A push of two stocks on an open Wednesday.
use solonpad_contracts.Base.{
  List, [], arith, false, includes, inl, none, refl, some, true, ℕ, ◌+◌, ◌<◌, ◌∷◌, ◌≡◌, ◌≤◌, ◌⊎◌,
}
use solonpad_contracts.Base.Dict.{Dict}
use solonpad_contracts.Market.{
  NyTime, feed_fresh, is_open, market_defaults, market_gate, overnight_session, session_state,
  trading_date,
}
use solonpad_contracts.Oracle.Trigger.{
  LastPush, Observation, OracleParams, demand_asks, known_triggers, moved_bps, push_triggers, read,
}
use solonpad_contracts.Oracle.Push.{
  Situation, decide_push, due_stocks, gate, guard_push, judge, market_params, min_gap, min_interval,
  only_demand, push, readable_stocks, reasons_of, same_block, session_open,
}
use solonpad_contracts.Oracle.Push.Guards.{Listed, here, push_market_open, push_spaced}
use solonpad_contracts.Oracle.Push.Due.{moved_is_pushed, push_covers_due}

abbrev params : OracleParams
params = record {
  deviation_bps = 50;
  heartbeat_sec = 0;
  heartbeat_margin_sec = 0;
  max_twap_bps = 0;
  twap_trigger = false;
  freshness_sec = 0;
  max_source_age_sec = 86_400;
  min_interval_sec = 60;
  demand_min_interval_sec = 120;
  demand_coalesce_sec = 30;
  batch_all = true;
  session_holidays = [];
  market = some market_defaults;
}

abbrev quote_of : ℕ → Observation
quote_of price = record { price18 = price; twap_price18 = price; quote_usd18 = none }

abbrev noon : NyTime
noon = record { dow = 3; minute = 720; date = 20_593 }

abbrev seen : Dict LastPush
seen = (1, record { seen = quote_of 1_000; pushed_at = 500; l1_block = none }) ∷ []

abbrev wednesday : Situation
wednesday = record {
  now_sec = 10_000;
  ny = noon;
  l1_block = some 8;
  current = (1, read (quote_of 1_100) 9_000) ∷ [];
  last = seen;
  last_push_at = 500;
  last_l1_block = 7;
  demand = none;
}

pushes_one : decide_push params wednesday ≡ push (1 ∷ [])
unfolding decide_push guard_push due_stocks readable_stocks only_demand judge reasons_of gate
    market_params session_open market_gate session_state overnight_session trading_date feed_fresh
    push_triggers known_triggers moved_bps demand_asks
pushes_one = refl

one_due : includes (due_stocks params wednesday wednesday.current) 1 ≡ true
unfolding due_stocks judge reasons_of gate market_params session_open market_gate session_state
    overnight_session trading_date feed_fresh push_triggers known_triggers moved_bps demand_asks
one_due = refl

push_market_open_example :
    (o : Observation) × (updated : ℕ) × Listed 1 (read o updated) wednesday.current
    × (is_open (session_state (market_params params market_defaults) noon) ≡ true)
    × (0 < updated)
    × (10_000 ≤ updated + 86_400 + 1_800)
push_market_open_example =
    push_market_open params wednesday {us = 1 ∷ []} 1 {m = market_defaults} refl pushes_one refl

push_spaced_example :
    ((wednesday.last_push_at ≡ 0)
      ⊎ (500 + min_gap params (only_demand params wednesday wednesday.current) ≤ 10_000))
    × ((b : ℕ) → wednesday.l1_block ≡ some b → (wednesday.last_l1_block ≡ 0) ⊎ (7 < b))
push_spaced_example = push_spaced params wednesday {us = 1 ∷ []} pushes_one

push_covers_due_example : includes (1 ∷ []) 1 ≡ true
push_covers_due_example = push_covers_due params wednesday {us = 1 ∷ []} 1 pushes_one one_due

open_now : (gate params noon 10_000 9_000 params.market).ok ≡ true
unfolding gate market_params market_gate session_state overnight_session trading_date feed_fresh
open_now = refl

moved_is_pushed_example :
    (decide_push params wednesday
      ≡ min_interval (500 + min_gap params (only_demand params wednesday wednesday.current)))
    ⊎ (decide_push params wednesday ≡ same_block 8)
    ⊎ ((us : List ℕ) × (decide_push params wednesday ≡ push us) × (includes us 1 ≡ true))
moved_is_pushed_example =
    moved_is_pushed params wednesday 1 {o = quote_of 1_100} {updated = 9_000}
      {l = record { seen = quote_of 1_000; pushed_at = 500; l1_block = none }} here open_now refl
      (omega arith) (inl (omega arith))
