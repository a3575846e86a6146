-- ===== src/Payout/Service.antt =====
-- A payout queue's turn (keepers/v3/push/keeper.mjs: serviceQueue, accountsFor, stageableEstimate). The chain with
-- the transaction sender is outside this part, as a record of views and a call. An account's number of logs
-- stands for `processedEvents`, which the source halves and only compares with 0.
pub mod Guarded
mod Tests
use solonpad_contracts.Base.{
  Bool, List, Option, [], false, if◌then◌else◌, leb, ltb, min, none, not, some, suc, true, zero, ℕ,
  ◌&&◌, ◌*◌, ◌+◌, ◌-◌, ◌/◌, ◌==◌, ◌∷◌,
}
use solonpad_contracts.Demand.Requests.{Requests}
use solonpad_contracts.Demand.Awaiting.{Answer, Ask, answer, asked, no_dir, push_goes}
use solonpad_contracts.Payout.Cycle.{
  DayPlan, DayRecord, Decision, RunConfig, day_plan, is_day, progress_of, queue_decision, run, scan,
  utc_day,
}
use solonpad_contracts.Payout.Gas.{GasPlan, gas_plan}

-- `previewBatch`
pub record Preview : Type 0 where
  pub upper_bound : ℕ
  pub cursor : ℕ
  pub next_scan_at : ℕ

-- An account's share of a vault allocation: its credit, what was delivered for all credits, and what it has
-- been paid; `none` for a queue of another source.
pub record Stake : Type 0 where
  pub credit : ℕ
  pub delivered : ℕ
  pub credit_total : ℕ
  pub paid_already : ℕ

-- `batch:<id>:<today>:<start>:<nextScan>`, with the call's arguments.
pub record Batch : Type 0 where
  pub queue : ℕ
  pub today : ℕ
  pub start : ℕ
  pub next_scan_at : ℕ
  pub accounts : ℕ
  pub gas_limit : ℕ

pub record Env (W : Type 0) : Type 0 where
  pub preview : W → (queue : ℕ) → Preview
  pub ask : W → (queue : ℕ) → Ask
  pub ready_raw : W → (queue account : ℕ) → ℕ
  pub stake : W → (queue account : ℕ) → Option Stake
  pub price : W → (queue : ℕ) → ℕ
  pub price_updated_at : W → (queue : ℕ) → ℕ
  pub oracle_max_age : W → ℕ
  pub minimum : W → ℕ
  pub run_config : W → RunConfig
  pub logs : W → Batch → ℕ
  pub call : W → Batch → W × Bool
  pub is_quarantined : W → Batch → Bool
  pub mark_failure : W → Batch → W
  pub execute : Bool
  pub max_evaluated : ℕ
  pub gas_budget : ℕ
  pub per_account_gas : ℕ
  pub max_tx_gas : ℕ
  pub wanted : ℕ
  pub overhead : ℕ

-- The journal record of a queue.
pub record QueueRec : Type 0 where
  pub days : DayRecord
  pub plan_day : Option ℕ
  pub last_cursor : ℕ

pub data Alert : Type 0 where
  failing stalled : Alert

pub record State (W : Type 0) : Type 0 where
  pub world : W
  pub rec : QueueRec
  pub requests : Requests
  pub sends : List (W × Batch)
  pub alerts : List Alert
  pub thrown : Bool

-- `stageableEstimate`: what the account is owed and has not been paid. A delivered allocation has credits, so the
-- source's division by their total is by a positive number.
pub stageable : Option Stake → ℕ
stageable none = 0
stageable (some t) = t.credit * t.delivered / t.credit_total - t.paid_already

module _ {W : Type 0} (env : Env W) where
  -- The loop of `accountsFor` over the `n` accounts from `i` on.
  pub accounts_from : W → (queue n i : ℕ) → List ℕ
  accounts_from w queue zero i = []
  accounts_from w queue (suc n) i =
      (env.ready_raw w queue i + stageable (env.stake w queue i)) ∷ accounts_from w queue n (suc i)

  -- `accountsFor`
  pub accounts_for : W → (queue upper_bound : ℕ) → List ℕ
  unfolding accounts_from
  accounts_for w queue upper = accounts_from w queue (min upper env.max_evaluated) 0

  -- The price given to `dayPlan`: 0 unless it is fresh.
  pub plan_price : W → (queue now : ℕ) → ℕ
  plan_price w queue now =
      if ltb 0 (env.price w queue)
        && leb (now - env.price_updated_at w queue) (env.oracle_max_age w)
      then env.price w queue
      else 0

  abbrev pub start_of : Preview → ℕ
  start_of v = if v.cursor == v.upper_bound then 0 else v.cursor

  -- The plan of the day.
  pub plan_of : W → (queue now : ℕ) → Preview → DayPlan
  plan_of w queue now v =
      day_plan (env.run_config w) (accounts_for w queue v.upper_bound) (plan_price w queue now)
        (env.minimum w) (start_of v)

  abbrev pub runs : DayPlan → Bool
  runs (run n value cost pages) = true
  runs _ = false

  -- Behind a confirmed batch.
  pub record_batch : (queue now : ℕ) → Preview → Batch → State W → State W
  record_batch queue now v b s =
      let after = (env.preview s.world queue).cursor in
      let progress = progress_of v.cursor after (env.logs s.world b) v.upper_bound in
      let days =
        if progress.is_complete
        then record s.rec.days { completed_day = some (utc_day now) }
        else s.rec.days in
      if not progress.is_moved
      then record s { world = env.mark_failure s.world b; alerts = stalled ∷ s.alerts }
      else record s { rec = record s.rec { days = days; last_cursor = after } }

  -- The call of a batch.
  pub send_batch : (queue now : ℕ) → Preview → Batch → State W → State W
  send_batch queue now v b s =
      let (w, confirmed) = env.call s.world b in
      let after = record s { world = w; sends = (s.world, b) ∷ s.sends } in
      let alerted =
        if env.is_quarantined w b
        then record after { alerts = failing ∷ after.alerts }
        else after in
      let recorded = record_batch queue now v b after in if confirmed then recorded else alerted

  abbrev pub with_gas : (queue now : ℕ) → Preview → Option GasPlan → State W → State W
  with_gas queue now v none s = record s { thrown = true }
  with_gas queue now v (some g) s =
      send_batch queue now v
        (record {
          queue = queue;
          today = utc_day now;
          start = start_of v;
          next_scan_at = v.next_scan_at;
          accounts = g.accounts;
          gas_limit = g.gas_limit;
        })
        s

  -- A queue whose day is planned.
  pub pay : (queue now : ℕ) → Preview → State W → State W
  pay queue now v s =
      with_gas queue now v
        (gas_plan env.gas_budget env.per_account_gas env.max_tx_gas env.wanted env.overhead) s

  -- The day's plan is made once.
  pub plan_and_pay : (queue now : ℕ) → Preview → State W → State W
  plan_and_pay queue now v s =
      let today = utc_day now in
      let skipped = record s {
        rec = record s.rec { days = record s.rec.days { skipped_day = some today } };
      } in
      let planned = record s { rec = record s.rec { plan_day = some today } } in
      if is_day s.rec.plan_day today
      then pay queue now v s
      else if not (runs (plan_of s.world queue now v))
      then (if env.execute then skipped else s)
      else pay queue now v (if env.execute then planned else s)

  abbrev pub on_answer : (queue now : ℕ) → Preview → Answer × Requests → State W → State W
  on_answer queue now v (no_dir, file) s = record s { thrown = true }
  on_answer queue now v (a, file) s =
      let asked = record s { requests = file } in
      let paid = plan_and_pay queue now v asked in if push_goes a then paid else asked

  abbrev pub scans : Decision → Bool
  scans scan = true
  scans _ = false

  -- `serviceQueue`
  pub service_queue : (queue now : ℕ) → State W → State W
  service_queue queue now s =
      let v = env.preview s.world queue in
      let due = on_answer queue now v (answer (env.ask s.world queue) s.requests) s in
      if scans (queue_decision now v.next_scan_at v.upper_bound s.rec.days) then due else s
