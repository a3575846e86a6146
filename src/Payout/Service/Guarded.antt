-- ===== src/Payout/Service/Guarded.antt =====
-- When a payout batch is sent, and what ends a queue's day.
use solonpad_contracts.Payout.Cycle.Schedule.{not_twice_a_day, queue_decision_iff}
use solonpad_contracts.Demand.Awaiting.{
  Answer, answer, asked, fresh_price, market_closed, no_dir, not_usable, unreadable, waits_dry,
}
use solonpad_contracts.Demand.Requests.{Requests}
use solonpad_contracts.Desk.Streams.{day}
use solonpad_contracts.Payout.Gas.Reserve.{gas_plan_limit}
use solonpad_contracts.Payout.Gas.{GasPlan, gas_plan}
use solonpad_contracts.Base.{
  Bool, Bool-cases, Option, arith, false, if_lem, inl, inr, none, not, refl, some, true, ℕ, ◌/◌,
  ◌<◌, ◌==◌, ◌∷◌, ◌≡◌, ◌≢◌, ◌≤◌, ◌⊎◌,
}
use solonpad_contracts.Payout.Cycle.{
  Decision, before_window, completed_today, empty_queue, is_day, queue_decision, scan,
  skipped_today, utc_day, waits_continuation,
}
use solonpad_contracts.Payout.Service.{
  Batch, Env, Preview, QueueRec, State, on_answer, pay, plan_and_pay, plan_of, record_batch, runs,
  scans, send_batch, service_queue, start_of, with_gas,
}

module _ {W : Type 0} (env : Env W) (queue now : ℕ) where
  -- A batch that may be sent in a world, for a queue with that record.
  abbrev pub IsAllowed : QueueRec → W × Batch → Type 0
  IsAllowed rec (w, b) =
      let v = env.preview w queue in
      (queue_decision now v.next_scan_at v.upper_bound rec.days ≡ scan)
      × ((is_day rec.plan_day (utc_day now) ≡ true) ⊎ (runs env (plan_of env w queue now v) ≡ true))
      × (b.start ≢ v.upper_bound)
      × (b.gas_limit ≤ env.max_tx_gas)

  -- What a turn adds to the calls: nothing, or one batch that satisfies `P`.
  abbrev pub AtMostOne : (W × Batch → Type 0) → State W → State W → Type 0
  AtMostOne P s t =
      (t.sends ≡ s.sends) ⊎ ((b : Batch) × (t.sends ≡ (s.world, b) ∷ s.sends) × P (s.world, b))

  not-false : {b : Bool} → not b ≡ false → b ≡ true
  not-false {b} h = ground arith

  record_batch_sends :
      (v : Preview) (b : Batch) (s : State W) → (record_batch env queue now v b s).sends ≡ s.sends
  unfolding record_batch
  record_batch_sends v b s = ground arith

  send_batch_sends :
      (v : Preview) (b : Batch) (s : State W)
      → (send_batch env queue now v b s).sends ≡ (s.world, b) ∷ s.sends
  unfolding send_batch
  send_batch_sends v b s =
      let (w, confirmed) = env.call s.world b in
      let after : State W = record s { world = w; sends = (s.world, b) ∷ s.sends } in
      let stored = record_batch_sends v b after in
      if_lem (λ (t : State W). t.sends ≡ (s.world, b) ∷ s.sends) confirmed (λ went. stored)
        (λ missed.
          if_lem (λ (t : State W). t.sends ≡ (s.world, b) ∷ s.sends) (env.is_quarantined w b)
            (λ q. refl) (λ calm. refl))

  with_gas_sends :
      (P : W × Batch → Type 0) (v : Preview) (o : Option GasPlan) (s : State W)
      → gas_plan env.gas_budget env.per_account_gas env.max_tx_gas env.wanted env.overhead ≡ o
      → ((b : Batch) → b.start ≡ start_of env v → b.gas_limit ≤ env.max_tx_gas → P (s.world, b))
      → AtMostOne P s (with_gas env queue now v o s)
  with_gas_sends P v none s h allowed = inl refl
  with_gas_sends P v (some g) s h allowed =
      let limit =
        gas_plan_limit env.gas_budget env.per_account_gas env.max_tx_gas env.wanted env.overhead g
          h in
      let b : Batch = record {
        queue = queue;
        today = utc_day now;
        start = start_of env v;
        next_scan_at = v.next_scan_at;
        accounts = g.accounts;
        gas_limit = g.gas_limit;
      } in
      inr (b, send_batch_sends v b s, allowed b refl limit)

  pay_sends :
      (P : W × Batch → Type 0) (v : Preview) (s : State W)
      → ((b : Batch) → b.start ≡ start_of env v → b.gas_limit ≤ env.max_tx_gas → P (s.world, b))
      → AtMostOne P s (pay env queue now v s)
  unfolding pay
  pay_sends P v s allowed =
      with_gas_sends P v
        (gas_plan env.gas_budget env.per_account_gas env.max_tx_gas env.wanted env.overhead) s refl
        allowed

  -- The day is planned before anything is paid.
  plan_and_pay_sends :
      (P : W × Batch → Type 0) (v : Preview) (s : State W)
      → ((b : Batch)
          → b.start ≡ start_of env v
          → b.gas_limit ≤ env.max_tx_gas
          → (is_day s.rec.plan_day (utc_day now) ≡ true)
            ⊎ (runs env (plan_of env s.world queue now v) ≡ true)
          → P (s.world, b))
      → AtMostOne P s (plan_and_pay env queue now v s)
  unfolding plan_and_pay
  plan_and_pay_sends P v s allowed =
      let today = utc_day now in
      let planned : State W = record s { rec = record s.rec { plan_day = some today } } in
      if_lem (AtMostOne P s) (is_day s.rec.plan_day today)
        (λ earlier. pay_sends P v s (λ b at limit. allowed b at limit (inl earlier)))
        (λ first.
          if_lem (AtMostOne P s) (not (runs env (plan_of env s.world queue now v)))
            (λ poor. if_lem (AtMostOne P s) env.execute (λ live. inl refl) (λ dry. inl refl))
            (λ rich.
              let good = not-false rich in
              let may : (b : Batch)
                  → b.start ≡ start_of env v
                  → b.gas_limit ≤ env.max_tx_gas
                  → P (s.world, b) =
                λ b at limit. allowed b at limit (inr good) in
              if_lem (λ (t : State W). AtMostOne P s (pay env queue now v t)) env.execute
                (λ live. pay_sends P v planned may) (λ dry. pay_sends P v s may)))

  on_answer_sends :
      (P : W × Batch → Type 0) (v : Preview) (a : Answer) (file : Requests) (s : State W)
      → ((b : Batch)
          → b.start ≡ start_of env v
          → b.gas_limit ≤ env.max_tx_gas
          → (is_day s.rec.plan_day (utc_day now) ≡ true)
            ⊎ (runs env (plan_of env s.world queue now v) ≡ true)
          → P (s.world, b))
      → AtMostOne P s (on_answer env queue now v (a, file) s)
  on_answer_sends P v no_dir file s allowed = inl refl
  on_answer_sends P v fresh_price file s allowed =
      plan_and_pay_sends P v (record s { requests = file }) allowed
  on_answer_sends P v unreadable file s allowed =
      plan_and_pay_sends P v (record s { requests = file }) allowed
  on_answer_sends P v not_usable file s allowed =
      plan_and_pay_sends P v (record s { requests = file }) allowed
  on_answer_sends P v market_closed file s allowed =
      plan_and_pay_sends P v (record s { requests = file }) allowed
  on_answer_sends P v waits_dry file s allowed = inl refl
  on_answer_sends P v asked file s allowed = inl refl

  scans_scan : (d : Decision) → scans env d ≡ true → d ≡ scan
  scans_scan scan h = refl
  scans_scan before_window h = ground arith
  scans_scan empty_queue h = ground arith
  scans_scan completed_today h = ground arith
  scans_scan skipped_today h = ground arith
  scans_scan waits_continuation h = ground arith

  start_inside :
      (v : Preview) (rec : QueueRec)
      → queue_decision now v.next_scan_at v.upper_bound rec.days ≡ scan
      → start_of env v ≢ v.upper_bound
  start_inside v rec due =
      let facts = (queue_decision_iff now v.next_scan_at v.upper_bound rec.days).0 due in
      let some_accounts : 0 < v.upper_bound = facts.1 in
      elim (Bool-cases (v.cursor == v.upper_bound)) [
        | inl ended ↦ rw ended (λ e. omega (arith, e, some_accounts))
        | inr inside ↦ rw inside (ground arith)
      ]

  -- A queue's turn sends nothing, or one batch: only where the clock, the contract's schedule and the day's
  -- record allow a scan, after the day was planned, today before or just now as worth its gas, from a start
  -- that is not the end, and within the transaction's gas.
  pub service_queue-IsAllowed :
      (s : State W) → AtMostOne (IsAllowed s.rec) s (service_queue env queue now s)
  unfolding service_queue
  service_queue-IsAllowed s =
      let v = env.preview s.world queue in
      let d = queue_decision now v.next_scan_at v.upper_bound s.rec.days in
      let out = answer (env.ask s.world queue) s.requests in
      if_lem (AtMostOne (IsAllowed s.rec) s) (scans env d)
        (λ go.
          let due = scans_scan d go in
          let inside = start_inside v s.rec due in
          on_answer_sends (IsAllowed s.rec) v out.0 out.1 s
            (λ b at limit plan. (due, plan, rw at inside, limit)))
        (λ stay. inl refl)

  -- A queue whose day is complete or skipped is not touched again at any later time of that day.
  pub service_queue_rests :
      (later : ℕ) (s : State W)
      → now / day ≡ later / day
      → (s.rec.days.completed_day ≡ some (now / day)) ⊎ (s.rec.days.skipped_day ≡ some (now / day))
      → service_queue env queue later s ≡ s
  unfolding service_queue
  service_queue_rests later s same ended =
      let v = env.preview s.world queue in
      let d = queue_decision later v.next_scan_at v.upper_bound s.rec.days in
      let out = answer (env.ask s.world queue) s.requests in
      if_lem (λ (t : State W). t ≡ s) (scans env d)
        (λ go. absurd (
          not_twice_a_day now later v.next_scan_at v.upper_bound s.rec.days.completed_day
            s.rec.days.skipped_day same ended (scans_scan d go)))
        (λ stay. refl)
