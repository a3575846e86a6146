-- ===== src/Payout/Service/Tests.antt =====
-- A queue of two accounts whose batch pays both.
use solonpad_contracts.Payout.Service.Guarded.{AtMostOne, IsAllowed, service_queue-IsAllowed}
use solonpad_contracts.Payout.Service.{Env, State, service_queue}
use solonpad_contracts.Base.{[], false, none, some, true, ℕ, ◌^◌}

abbrev env : Env ℕ
env = record {
  preview = λ w queue. record { upper_bound = 2; cursor = w; next_scan_at = 0 };
  ask = λ w queue. record {
    reading = some (record {
      status = 1;
      observed_at = 43_200;
      relayed_price18 = 10 ^ 18;
      price_usd18 = 10 ^ 18;
      max_age = 3_600;
      underlying = 1;
    });
    now = 43_200;
    stamp = 0;
    window = 3_600;
    margin = 60;
    refresh = 300;
    ttl = 3_600;
    requester = 1;
    execute = true;
    has_dir = true;
    market = none;
    ny = record { dow = 1; minute = 720; date = 20_450 };
  };
  ready_raw = λ w queue account. 10 ^ 18;
  stake = λ w queue account. none;
  price = λ w queue. 10 ^ 18;
  price_updated_at = λ w queue. 43_200;
  oracle_max_age = λ w. 3_600;
  minimum = λ w. 1;
  run_config = λ w. record {
    gas_price_wei = 1;
    per_account_gas = 1;
    fixed_gas = 1;
    page_size = 2;
    max_cost_bps = 10_000;
  };
  logs = λ w b. 4;
  call = λ w b. (2, true);
  is_quarantined = λ w b. false;
  mark_failure = λ w b. w;
  execute = true;
  max_evaluated = 64;
  gas_budget = 2_000_000;
  per_account_gas = 600_000;
  max_tx_gas = 15_000_000;
  wanted = 32;
  overhead = 300_000;
}

abbrev start : State ℕ
start = record {
  world = 0;
  rec = record {
    days = record { completed_day = none; skipped_day = none };
    plan_day = none;
    last_cursor = 0;
  };
  requests = [];
  sends = [];
  alerts = [];
  thrown = false;
}

service_queue-IsAllowed_example :
    AtMostOne env 0 43_200
      (IsAllowed env 0 43_200 start.rec)
      start
      (service_queue env 0 43_200 start)
service_queue-IsAllowed_example = service_queue-IsAllowed env 0 43_200 start
