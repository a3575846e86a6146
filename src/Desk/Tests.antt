-- ===== src/Desk/Tests.antt =====
-- Runs of the Desk keeper on a small chain: one stream whose world counts the calls that it has taken, from no
-- entry source (0) to the source (1), the seal (2), the purchase (3) and its queue (4).
use solonpad_contracts.Desk.Sweep.{streams_phase}
use solonpad_contracts.Desk.Queues.{scan_queues}
use solonpad_contracts.Desk.Tick.Once.{IsFirst, open_tick-IsNew}
use solonpad_contracts.Desk.Service.Due.{Serves, service_queues-IsDue}
use solonpad_contracts.Desk.Service.{Feed, Serving, service_queues}
use solonpad_contracts.Desk.Opening.Grouped.{count, placed, plan_groups_places}
use solonpad_contracts.Desk.Opening.{open_phase, plan_groups}
use solonpad_contracts.Desk.Entries.Scanned.{IsCurrent, entry_id_of_lem, last_entry}
use solonpad_contracts.Desk.Entries.{entry_id_of}
use solonpad_contracts.Desk.Streams.{usdc_quoted}
use solonpad_contracts.Desk.Walk.Steps.{Asked, walk-Asked}
use solonpad_contracts.Desk.Walk.Settles.{Documented, usdc_stream_settles}
use solonpad_contracts.Desk.Walk.{Params, Ready, too_many_steps, usdc_stream, walk}
use solonpad_contracts.Desk.Ledger.{
  Chain, Item, Op, QueueRec, QueueView, State, batch, entry_source, forward_protocol, fund_protocol,
  no_pass, no_stream, open_queue, seal_entry, sync_purchased,
}
use solonpad_contracts.Base.{
  All, List, Option, [], arith, false, if◌then◌else◌, leb, none, refl, some, true, ℕ, ◌&&◌, ◌*◌,
  ◌+◌, ◌-◌, ◌<◌, ◌==◌, ◌^◌, ◌||◌, ◌∷◌, ◌≡◌, ◌≢◌, ◌⊎◌,
}

abbrev all_bought : ℕ → ℕ
all_bought w = if leb 3 w then 5 else 0

abbrev queue_view : QueueView
queue_view = record {
  content = record { keys = 7 ∷ []; asset = 1; revisions = 1 ∷ [] };
  upper_bound = 40;
  cursor = 0;
  next_scan_at = 0;
}

abbrev move : ℕ → Op → ℕ
move w (entry_source key) = 1
move w (seal_entry key) = 2
move w (sync_purchased key delivered entry) = 3
move w (open_queue c) = 4
move w (fund_protocol key credit) = w
move w (forward_protocol key credit) = w
move w (batch id next start cards limit) = w

abbrev small : Chain ℕ
small = record {
  readable = λ w key. true;
  stream = λ w key. record {
    kind = usdc_quoted;
    counter = 10;
    total_credit27 = 10 ^ 45;
    is_sealed = leb 2 w;
    has_source = leb 1 w;
  };
  entry_view =
      λ w key entry. record { delivered = 5; available = 0; pending = 0; purchased = all_bought w };
  entry_reason = λ w entry. 0;
  next_entry_id = λ w. 1;
  desk_key_of = λ w entry. some 7;
  delivery = λ w key. (1, 1);
  purchased_raw = λ w key. all_bought w;
  delegated_credit27 = λ w key. 0;
  delegated_funded = λ w key. 0;
  queue = λ w index. if leb 4 w && index == 0 then some queue_view else none;
  is_queued = λ w c. leb 4 w;
  price = λ w asset. some (10 ^ 18);
  minimum = λ w. 0;
  is_quarantined = λ w op. false;
  call = λ w op. (move w op, true);
  receipt = λ w op. record { paid = 1; failed = 0 };
}

abbrev params : Params
params = record {
  lookback_days = 30;
  deliver_alert_sec = 86_400;
  scan_margin_sec = 60;
  price_alert_sec = 3_600;
  price_margin_sec = 60;
  demand_refresh_sec = 300;
  max_keys_per_queue = 8;
  margin_bps = 0;
  max_passes = 3;
}

abbrev item : Item
item = record { id = 7; epoch = 0; kind = usdc_quoted }

abbrev start : (w : ℕ) → State ℕ
start w = record {
  world = w;
  streams = [];
  book = record { next = 1; entries = [] };
  queues = [];
  next_queue = 0;
  covered = [];
  sends = [];
  alerts = [];
}

abbrev noon : ℕ
noon = 10 * 86_400 + 43_200

small-Documented : Documented small 7
small-Documented = record {
  source_set = λ w h. refl;
  seal_set = λ w h. refl;
  seal_kept = λ w delivered entry h. refl;
  synced = λ w delivered entry h. omega arith;
}

usdc_stream_settles_example :
    (usdc_stream small params noon item no_stream false (start 0)).0 ≢ too_many_steps
usdc_stream_settles_example =
    usdc_stream_settles small params noon item no_stream false small-Documented (start 0)

walk-Asked_example :
    All
      (Asked small params noon item)
      (walk small params noon 2 item no_stream false (start 1)).1.sends
walk-Asked_example = walk-Asked small params noon 2 item no_stream false (start 1) tt

-- Entries 2 and 5 belong to the stream 7, entry 4 to the stream 9.
abbrev key_at : ℕ → Option ℕ
key_at id = if id == 2 || id == 5 then some 7 else if id == 4 then some 9 else none

fresh_book-IsCurrent : IsCurrent key_at (record { next = 1; entries = [] })
unfolding IsCurrent
fresh_book-IsCurrent = (omega arith, λ key. refl)

entry_id_of_lem_example :
    let out = entry_id_of key_at 5 7 (record { next = 1; entries = [] }) in
    IsCurrent key_at out.1
    × (out.0 ≡ last_entry key_at (out.1.next - 1) 7)
    × ((out.0 ≢ none) ⊎ (5 < out.1.next))
entry_id_of_lem_example =
    entry_id_of_lem key_at 5 7 (record { next = 1; entries = [] }) fresh_book-IsCurrent

abbrev ready_of : (key asset : ℕ) → Ready
ready_of key asset = record {
  key = key;
  asset = asset;
  revision = 1;
  per_card = 10 ^ 18;
  ready_at = 0;
}

abbrev same_order : List Ready → List Ready
same_order rs = rs

abbrev three_ready : List Ready
three_ready = ready_of 1 5 ∷ (ready_of 2 6 ∷ (ready_of 3 5 ∷ []))

plan_groups_places_example :
    placed 3 (plan_groups same_order (λ a. 10 ^ 18) 1 2 0 three_ready) ≡ count 3 three_ready
plan_groups_places_example =
    plan_groups_places same_order (λ a. 10 ^ 18) 1 2 0 (λ key rs. refl) 3 three_ready

abbrev served : QueueRec
served = record {
  content = record { keys = 7 ∷ []; asset = 1; revisions = 1 ∷ [] };
  upper_bound = 40;
  adopted_cursor = none;
  ours = true;
  serviced = some true;
  adopted = false;
  pass = no_pass;
  price_wait_since = none;
}

abbrev feed : Feed ℕ
feed = record {
  reading = λ w asset. some (record {
    status = 1;
    observed_at = noon;
    relayed_price18 = 10 ^ 18;
    price_usd18 = 10 ^ 18;
    max_age = 3_600;
    underlying = 1;
  });
  max_age = λ w. 3_600;
  stamp = 0;
  ttl = 3_600;
  requester = 1;
  execute = true;
  has_dir = true;
  market = none;
  ny = record { dow = 1; minute = 720; date = 20_450 };
  gas = record {
    max_tx_gas = 15_000_000;
    fixed_gas = 150_000;
    per_card_gas = 40_000;
    per_key_card_gas = 60_000;
  };
  mark_failure = λ w op. w;
}

service_queues-IsDue_example :
    let v : Serving ℕ = record { state = start 4; requests = []; thrown = false } in
    Serves small feed params noon
      ((0, served) ∷ [])
      []
      (service_queues small feed params noon ((0, served) ∷ []) v).state.sends
service_queues-IsDue_example =
    service_queues-IsDue small feed params noon ((0, served) ∷ [])
      (record { state = start 4; requests = []; thrown = false })

abbrev with_queue : State ℕ
with_queue = record (start 0) {
  queues =
      (0, record served { content = record { keys = 9 ∷ []; asset = 1; revisions = [] } }) ∷ [];
  next_queue = 1;
}

open_tick-IsNew_example :
    let scanned = scan_queues small 8 (7 ∷ []) with_queue in
    let (found, swept) = streams_phase small params noon (item ∷ []) scanned in
    All
      (IsFirst small feed params same_order 8 noon scanned.queues (9 ∷ []))
      (open_phase small 8 (7 ∷ []) same_order params found (record swept { sends = [] })).sends
open_tick-IsNew_example =
    open_tick-IsNew small feed params same_order 8 noon (item ∷ []) with_queue (9 ∷ [])
      (λ key rs. refl)
      (
        (
          0,
          record served { content = record { keys = 9 ∷ []; asset = 1; revisions = [] } },
          omega arith,
          refl,
          refl,
          refl,
        ),
        tt,
      )
