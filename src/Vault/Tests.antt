-- ===== src/Vault/Tests.antt =====
-- An order that waits with its own funding and a liability to return.
use solonpad_contracts.Vault.Scanned.{scan_chunks_reaches}
use solonpad_contracts.Vault.Returned.{IsAsked, vault_tick-IsAsked}
use solonpad_contracts.Vault.{
  Chain, Params, State, execute_each, execute_one, execute_waiting, return_each, return_liabilities,
  return_one, scan_chunks, send, short_bps, waiting_funds,
}
use solonpad_contracts.Base.{
  All, [], arith, false, length, map, refl, some, true, ℕ, ◌*◌, ◌+◌, ◌^◌, ◌∷◌, ◌≡◌, ◌≤◌,
}

abbrev params : Params
params = record {
  scan_chunk = 100;
  start_lookback = 1_000;
  min_return6 = 10;
  max_return_short_bps = 100;
  wait_alert_sec = 3_600;
  max_per_tick = 2;
}

abbrev vault : Chain ℕ
vault = record {
  logs = λ from to. waiting_funds 7 ∷ [];
  float_enabled = λ w. false;
  free_settlement = λ w. 0;
  is_settled = λ w ref. false;
  waiting_amount = λ w ref. some 50;
  funding = λ w ref. 60;
  proceeds = λ w ref. 0;
  quote = λ w owed. some (record { expected_out = owed * 10 ^ 12; order_id = 1 });
  call = λ w op. (w + 1, true);
}

abbrev start : State ℕ
start = record {
  world = 0;
  next = 1;
  waiting = (7, 0) ∷ [];
  returnable = (8, 2) ∷ [];
  sends = [];
  late = [];
}

vault_tick-IsAsked_example :
    let paid = execute_waiting vault params 100 start in
    let end = return_liabilities vault params 100 paid in
    All (IsAsked vault params 100 false 0) end.sends × (length end.sends ≤ length paid.sends + 2)
vault_tick-IsAsked_example = vault_tick-IsAsked vault params 100 start refl

scan_chunks_reaches_example : (scan_chunks vault params 100 3 250 start).next ≡ 251
scan_chunks_reaches_example =
    scan_chunks_reaches vault params 100 3 250 start (omega arith) (omega arith) (omega arith)

-- The order is executed in the world 0, the liability returned in the world 1.
vault_run :
    map
      (λ c. c.0)
      (return_liabilities vault params 100 (execute_waiting vault params 100 start)).sends
    ≡ 1 ∷ (0 ∷ [])
unfolding return_liabilities return_each return_one execute_waiting execute_each execute_one send
    short_bps
vault_run = refl
