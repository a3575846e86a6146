-- ===== src/Oracle/Trigger/Tests.antt =====
-- A push that answers a demand.
use solonpad_contracts.Base.{[], arith, false, none, refl, some, true, ◌∷◌, ◌≡◌}
use solonpad_contracts.Base.Dict.{lookup}
use solonpad_contracts.Oracle.Trigger.{
  Demand, IsMerged, Observation, OracleParams, demand_asks, not_asked, push_triggers, read,
  record_push,
}
use solonpad_contracts.Oracle.Trigger.Answered.{push_answers}

abbrev params : OracleParams
params = record {
  deviation_bps = 50;
  heartbeat_sec = 3_600;
  heartbeat_margin_sec = 600;
  max_twap_bps = 0;
  twap_trigger = false;
  freshness_sec = 0;
  max_source_age_sec = 86_400;
  min_interval_sec = 60;
  demand_min_interval_sec = 120;
  demand_coalesce_sec = 30;
  batch_all = true;
  session_holidays = [];
  market = none;
}

params-IsMerged : IsMerged params
params-IsMerged = record { margin = λ h. omega arith }

abbrev priced : Observation
priced = record { price18 = 1_000; twap_price18 = 900; quote_usd18 = none }

abbrev asked : Demand
asked = record { underlyings = 4 ∷ []; requested_at = 90; stamps = [] }

push_answers_example :
    let l = lookup 4 (record_push (4 ∷ []) (λ u. read priced 80) 100 none []) in
    (push_triggers params 100 true l priced 80 ≡ [])
    × (demand_asks params (some asked) 4 l priced ≡ not_asked)
push_answers_example =
    push_answers params (4 ∷ []) (λ u. read priced 80) 100 none [] 4 true asked {o = priced}
      {updated = 80} params-IsMerged refl refl (omega arith) (omega arith)
