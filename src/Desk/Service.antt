-- ===== src/Desk/Service.antt =====
-- The payout batches of the Desk keeper (keepers/v3/desk/keeper.mjs: servicePhase). A queue that cannot be read, or a
-- demand without a directory, throws and ends the phase.
pub mod Due
use solonpad_contracts.Base.{
  Bool, Option, [], false, if◌then◌else◌, leb, length, ltb, none, not, or_else, some, true, ℕ, ◌%◌,
  ◌&&◌, ◌+◌, ◌-◌, ◌==◌, ◌||◌, ◌∷◌,
}
use solonpad_contracts.Base.Dict.{Dict}
use solonpad_contracts.Market.{MarketParams, NyTime}
use solonpad_contracts.Demand.Requests.{Requests}
use solonpad_contracts.Demand.Freshness.{ArcReading}
use solonpad_contracts.Demand.Awaiting.{Answer, Ask, answer, fresh_price, no_dir}
use solonpad_contracts.Desk.Streams.{day}
use solonpad_contracts.Desk.Pass.{GasConfig, applied, desk_gas_plan, max_cards, pass_update}
use solonpad_contracts.Desk.Ledger.{
  Chain, Op, QueueRec, QueueView, State, batch, no_progress, pushes_reverting, send, waits_price,
}
use solonpad_contracts.Desk.Walk.{Params, has}
use solonpad_contracts.Desk.Opening.{patch_queue}

abbrev pub scan_offset : ℕ
scan_offset = 600

-- What the phase is configured with and reads besides the chain: the asset's reading, the policy's window, and
-- the sender's mark of a failed task.
pub record Feed (W : Type 0) : Type 0 where
  pub reading : W → (asset : ℕ) → Option ArcReading
  pub max_age : W → ℕ
  pub stamp : ℕ
  pub ttl : ℕ
  pub requester : ℕ
  pub execute : Bool
  pub has_dir : Bool
  pub market : Option MarketParams
  pub ny : NyTime
  pub gas : GasConfig
  pub mark_failure : W → Op → W

-- The state with the demand file, and whether the phase has thrown.
pub record Serving (W : Type 0) : Type 0 where
  pub state : State W
  pub requests : Requests
  pub thrown : Bool

-- `cursor === upperBound ? 0 : cursor`
abbrev pub start_of : QueueView → ℕ
start_of q = if q.cursor == q.upper_bound then 0 else q.cursor

module _ {W : Type 0} (chain : Chain W) (feed : Feed W) (p : Params) (now : ℕ) where
  -- The arguments of `priceReady`.
  pub ask_of : W → (asset : ℕ) → Ask
  ask_of w asset = record {
    reading = feed.reading w asset;
    now = now;
    stamp = feed.stamp;
    window = feed.max_age w;
    margin = p.price_margin_sec;
    refresh = p.demand_refresh_sec;
    ttl = feed.ttl;
    requester = feed.requester;
    execute = feed.execute;
    has_dir = feed.has_dir;
    market = feed.market;
    ny = feed.ny;
  }

  -- A queue without a usable price: since when it waits, and the alert.
  pub wait_for_price : (id : ℕ) → QueueRec → State W → State W
  wait_for_price id rec s =
      let since = or_else rec.price_wait_since now in
      let noted = patch_queue id (λ r. record r { price_wait_since = some since }) s in
      let kept = if has rec.price_wait_since then s else noted in
      if ltb p.price_alert_sec (now - since)
      then record kept { alerts = waits_price id ∷ kept.alerts }
      else kept

  -- The call of a batch.
  pub batch_op : (id : ℕ) → QueueRec → QueueView → Op
  batch_op id rec q =
      let g = desk_gas_plan feed.gas (length rec.content.keys) max_cards in
      batch id q.next_scan_at (start_of q) g.cards g.gas_limit

  -- What is stored after a confirmed batch.
  pub store_pass : (id : ℕ) → QueueRec → Op → QueueView → (after : ℕ) → State W → State W
  store_pass id rec op q after s =
      let r = chain.receipt s.world op in
      let update = pass_update p.max_passes rec.pass (record {
        start = start_of q;
        after = after;
        upper_bound = q.upper_bound;
        paid = r.paid;
        failed = r.failed;
      }) in
      let stored = patch_queue id (λ o. record o { pass = applied rec.pass update.patch }) s in
      if not update.is_moved
      then record s { world = feed.mark_failure s.world op; alerts = no_progress id ∷ s.alerts }
      else if update.is_alert
      then record stored { alerts = pushes_reverting id ∷ stored.alerts }
      else stored

  -- The end of a batch's turn: the queue is read again.
  abbrev pub read_back :
      (id : ℕ) → QueueRec → Op → QueueView → Option QueueView → State W → Requests → Serving W
  read_back id rec op q none s file = record { state = s; requests = file; thrown = true }
  read_back id rec op q (some later) s file = record {
    state = store_pass id rec op q later.cursor s;
    requests = file;
    thrown = false;
  }

  -- Behind the call of a batch.
  abbrev pub after_batch :
      (id : ℕ) → QueueRec → Op → QueueView → (confirmed : Bool) → State W → Requests → Serving W
  after_batch id rec op q false s file = record { state = s; requests = file; thrown = false }
  after_batch id rec op q true s file = read_back id rec op q (chain.queue s.world id) s file

  -- A price that has come ends the wait.
  pub clear_wait : (id : ℕ) → QueueRec → State W → State W
  clear_wait id rec s =
      let cleared = patch_queue id (λ r. record r { price_wait_since = none }) s in
      if has rec.price_wait_since then cleared else s

  -- A queue whose price is fresh.
  pub pay_batch : (id : ℕ) → QueueRec → QueueView → State W → Requests → Serving W
  pay_batch id rec q s file =
      let op = batch_op id rec q in
      let (after, confirmed) = send chain op (clear_wait id rec s) in
      after_batch id rec op q confirmed after file

  -- A queue due by the clock, on what `priceReady` says.
  abbrev pub on_price : (id : ℕ) → QueueRec → QueueView → State W → Answer × Requests → Serving W
  on_price id rec q s (fresh_price, file) = pay_batch id rec q s file
  on_price id rec q s (no_dir, file) = record { state = s; requests = file; thrown = true }
  on_price id rec q s (_, file) = record {
    state = wait_for_price id rec s;
    requests = file;
    thrown = false;
  }

  -- The tests of the clock.
  abbrev pub is_time : QueueView → Bool
  is_time q = leb (scan_offset + p.scan_margin_sec) (now % day) && leb q.next_scan_at now

  abbrev pub on_queue : (id : ℕ) → QueueRec → Option QueueView → State W → Requests → Serving W
  on_queue id rec none s file = record { state = s; requests = file; thrown = true }
  on_queue id rec (some q) s file =
      let due = on_price id rec q s (answer (ask_of s.world q.content.asset) file) in
      if is_time q then due else record { state = s; requests = file; thrown = false }

  -- A queue's turn.
  pub service_queue : (id : ℕ) → QueueRec → State W → Requests → Serving W
  service_queue id rec s file =
      let turn = on_queue id rec (chain.queue s.world id) s file in
      if not (or_else rec.serviced false) || rec.pass.is_done
      then record { state = s; requests = file; thrown = false }
      else turn

  -- `servicePhase`, over the queues that the journal lists at its start.
  pub service_queues : Dict QueueRec → Serving W → Serving W
  service_queues [] v = v
  service_queues ((id, rec) ∷ queues) v =
      let next = service_queues queues (service_queue id rec v.state v.requests) in
      if v.thrown then v else next

  pub service_phase : State W → Requests → Serving W
  service_phase s file =
      service_queues s.queues (record { state = s; requests = file; thrown = false })
