-- ===== src/Desk/Service/Due.antt =====
-- When a batch is sent.
use solonpad_contracts.Base.Dict.{Dict}
use solonpad_contracts.Desk.Pass.Progress.{desk_gas_plan_fits}
use solonpad_contracts.Demand.Awaiting.Asked.{answer-fresh}
use solonpad_contracts.Demand.Awaiting.{
  Answer, answer, asked, fresh_price, market_closed, no_dir, not_usable, unreadable, waits_dry,
}
use solonpad_contracts.Demand.Freshness.{ArcReading, check_arc_price, fresh}
use solonpad_contracts.Base.{
  Bool, Bool-cases, List, Option, [], ap, arith, false, inl, inr, length, none, not, or_else, refl,
  some, true, ℕ, ◌%◌, ◌+◌, ◌||◌, ◌∙◌, ◌∷◌, ◌≡◌, ◌≤◌, ◌⊎◌,
}
use solonpad_contracts.Demand.Requests.{Requests}
use solonpad_contracts.Desk.Streams.{day}
use solonpad_contracts.Desk.Pass.{max_cards}
use solonpad_contracts.Desk.Ledger.{Chain, Op, QueueRec, QueueView, State, batch, send}
use solonpad_contracts.Desk.Walk.{Params}
use solonpad_contracts.Desk.Service.{
  Feed, Serving, after_batch, ask_of, batch_op, clear_wait, is_time, on_price, on_queue, pay_batch,
  read_back, scan_offset, service_queue, service_queues, store_pass, wait_for_price,
}

module _ {W : Type 0} (chain : Chain W) (feed : Feed W) (p : Params) (now : ℕ) where
  -- A batch is due: its queue is on chain, the day's window and the queue's own time have come, the price of its
  -- asset is fresh, and it has between one and thirty-two cards.
  abbrev pub IsDue : W × Op → Type 0
  IsDue (w, batch id next start cards limit) =
      (q : QueueView) × (chain.queue w id ≡ some q)
      × (q.next_scan_at ≤ now)
      × (scan_offset + p.scan_margin_sec ≤ now % day)
      × ((r : ArcReading) × (feed.reading w q.content.asset ≡ some r)
          × (check_arc_price r now (some (feed.max_age w)) p.price_margin_sec ≡ fresh))
      × (1 ≤ cards)
      × (cards ≤ max_cards)
  IsDue (w, _) = Unit

  store_pass_sends :
      (id : ℕ) (rec : QueueRec) (op : Op) (q : QueueView) (after : ℕ) (s : State W)
      → (store_pass chain feed p now id rec op q after s).sends ≡ s.sends
  unfolding store_pass
  store_pass_sends id rec op q after s = ground arith

  wait_for_price_sends :
      (id : ℕ) (rec : QueueRec) (s : State W)
      → (wait_for_price chain feed p now id rec s).sends ≡ s.sends
  unfolding wait_for_price
  wait_for_price_sends id rec s = ground arith

  clear_wait_same :
      (id : ℕ) (rec : QueueRec) (s : State W)
      → let after = clear_wait chain feed p now id rec s in
        (after.sends ≡ s.sends) × (after.world ≡ s.world)
  unfolding clear_wait
  clear_wait_same id rec s = ground arith

  read_back_sends :
      (id : ℕ) (rec : QueueRec) (op : Op) (q : QueueView) (o : Option QueueView) (s : State W)
      (file : Requests)
      → (read_back chain feed p now id rec op q o s file).state.sends ≡ s.sends
  read_back_sends id rec op q none s file = refl
  read_back_sends id rec op q (some later) s file = store_pass_sends id rec op q later.cursor s

  after_batch_sends :
      (id : ℕ) (rec : QueueRec) (op : Op) (q : QueueView) (confirmed : Bool) (s : State W)
      (file : Requests)
      → (after_batch chain feed p now id rec op q confirmed s file).state.sends ≡ s.sends
  after_batch_sends id rec op q false s file = refl
  after_batch_sends id rec op q true s file =
      read_back_sends id rec op q (chain.queue s.world id) s file

  pay_batch_sends :
      (id : ℕ) (rec : QueueRec) (q : QueueView) (s : State W) (file : Requests)
      → (pay_batch chain feed p now id rec q s file).state.sends
        ≡ (s.world, batch_op chain feed p now id rec q) ∷ s.sends
  unfolding pay_batch send
  pay_batch_sends id rec q s file =
      let op = batch_op chain feed p now id rec q in
      let cleared = clear_wait chain feed p now id rec s in
      let after = (send chain op cleared).0 in
      let same = clear_wait_same id rec s in
      let sent = after_batch_sends id rec op q (send chain op cleared).1 after file in
      sent ∙ ap (λ w. (w, op) ∷ cleared.sends) same.1 ∙ ap (λ l. (s.world, op) ∷ l) same.0

  -- A batch of the queue.
  abbrev pub IsOwn : (id : ℕ) → Op → Type 0
  IsOwn id (batch i next start cards limit) = i ≡ id
  IsOwn id _ = true ≡ false

  -- What a queue's turn adds to the calls: nothing, or one batch that is due.
  abbrev OneDue : (id : ℕ) → State W → Serving W → Type 0
  OneDue id s v =
      (v.state.sends ≡ s.sends)
      ⊎ ((op : Op) × (v.state.sends ≡ (s.world, op) ∷ s.sends) × IsOwn id op × IsDue (s.world, op))

  batch_op-IsDue :
      (id : ℕ) (rec : QueueRec) (q : QueueView) (s : State W) (file : Requests)
      → chain.queue s.world id ≡ some q
      → is_time chain feed p now q ≡ true
      → (answer (ask_of chain feed p now s.world q.content.asset) file).0 ≡ fresh_price
      → IsDue (s.world, batch_op chain feed p now id rec q)
  unfolding batch_op ask_of
  batch_op-IsDue id rec q s file found due priced =
      let cards = desk_gas_plan_fits feed.gas (length rec.content.keys) max_cards in
      (
        q,
        found,
        ground arith,
        ground arith,
        answer-fresh (ask_of chain feed p now s.world q.content.asset) file priced,
        cards.0,
        cards.1,
      )

  on_price-OneDue :
      (id : ℕ) (rec : QueueRec) (q : QueueView) (s : State W) (a : Answer) (file : Requests)
      → (a ≡ fresh_price → IsDue (s.world, batch_op chain feed p now id rec q))
      → OneDue id s (on_price chain feed p now id rec q s (a, file))
  on_price-OneDue id rec q s fresh_price file due = inr (
    batch_op chain feed p now id rec q,
    pay_batch_sends id rec q s file,
    (unfold batch_op in refl),
    due refl,
  )
  on_price-OneDue id rec q s no_dir file due = inl refl
  on_price-OneDue id rec q s unreadable file due = inl (wait_for_price_sends id rec s)
  on_price-OneDue id rec q s not_usable file due = inl (wait_for_price_sends id rec s)
  on_price-OneDue id rec q s market_closed file due = inl (wait_for_price_sends id rec s)
  on_price-OneDue id rec q s waits_dry file due = inl (wait_for_price_sends id rec s)
  on_price-OneDue id rec q s asked file due = inl (wait_for_price_sends id rec s)

  on_queue-OneDue :
      (id : ℕ) (rec : QueueRec) (o : Option QueueView) (s : State W) (file : Requests)
      → chain.queue s.world id ≡ o
      → OneDue id s (on_queue chain feed p now id rec o s file)
  on_queue-OneDue id rec none s file found = inl refl
  on_queue-OneDue id rec (some q) s file found =
      let out = answer (ask_of chain feed p now s.world q.content.asset) file in
      elim (Bool-cases (is_time chain feed p now q)) [
        | inl due ↦
            rw due
              (on_price-OneDue id rec q s out.0 out.1 (batch_op-IsDue id rec q s file found due))
        | inr early ↦ rw early (inl refl)
      ]

  is_serviced-some : (o : Option Bool) → or_else o false ≡ true → o ≡ some true
  is_serviced-some none h = ground arith
  is_serviced-some (some b) h = ground arith

  -- A queue's turn sends nothing, or one batch that is due; and nothing at all for a queue that is not
  -- serviced or is done.
  pub service_queue_lem :
      (id : ℕ) (rec : QueueRec) (s : State W) (file : Requests)
      → let out = service_queue chain feed p now id rec s file in
        (out.state.sends ≡ s.sends)
        ⊎ ((rec.serviced ≡ some true)
            × (rec.pass.is_done ≡ false)
            × ((op : Op) × (out.state.sends ≡ (s.world, op) ∷ s.sends)
                × IsOwn id op
                × IsDue (s.world, op)))
  unfolding service_queue
  service_queue_lem id rec s file =
      let turn = on_queue-OneDue id rec (chain.queue s.world id) s file refl in
      elim (Bool-cases (not (or_else rec.serviced false) || rec.pass.is_done)) [
        | inl skipped ↦ rw skipped (inl refl)
        | inr open_still ↦
            let served = is_serviced-some rec.serviced (ground arith) in
            let going : rec.pass.is_done ≡ false = ground arith in
            rw open_still (elim turn [ inl quiet ↦ inl quiet | inr due ↦ inr (served, going, due) ])
      ]

  -- The calls of a phase over the queues listed, in their order: each queue adds nothing, or, when its record says
  -- serviced and not done, one batch of its own that is due.
  abbrev pub Serves : Dict QueueRec → (before after : List (W × Op)) → Type 0
  Serves [] before after = after ≡ before
  Serves ((id, rec) ∷ queues) before after =
      (mid : List (W × Op)) × ((mid ≡ before)
        ⊎ ((rec.serviced ≡ some true)
            × (rec.pass.is_done ≡ false)
            × ((w : W) × (op : Op) × (mid ≡ (w, op) ∷ before) × IsOwn id op × IsDue (w, op))))
      × Serves queues mid after

  quiet-Serves : (queues : Dict QueueRec) (sends : List (W × Op)) → Serves queues sends sends
  quiet-Serves [] sends = refl
  quiet-Serves ((id, rec) ∷ queues) sends = (sends, inl refl, quiet-Serves queues sends)

  turn_of :
      (id : ℕ) (rec : QueueRec) (v : Serving W)
      → let out = service_queue chain feed p now id rec v.state v.requests in
        (out.state.sends ≡ v.state.sends)
        ⊎ ((rec.serviced ≡ some true)
            × (rec.pass.is_done ≡ false)
            × ((w : W) × (op : Op) × (out.state.sends ≡ (w, op) ∷ v.state.sends)
                × IsOwn id op
                × IsDue (w, op)))
  turn_of id rec v = elim (service_queue_lem id rec v.state v.requests) [
    | inl quiet ↦ inl quiet
    | inr (served, going, (op, sent, own, due)) ↦
        inr (served, going, (v.state.world, op, sent, own, due))
  ]

  -- A serving phase goes through the queues that the journal listed, in their order, and sends for each nothing or one
  -- batch: of that very queue, only when its record says serviced and not done, and due in the world in which it
  -- is sent.
  pub service_queues-IsDue :
      (queues : Dict QueueRec) (v : Serving W)
      → Serves queues v.state.sends (service_queues chain feed p now queues v).state.sends
  unfolding service_queues
  service_queues-IsDue [] v = refl
  service_queues-IsDue ((id, rec) ∷ queues) v =
      let turn = service_queue chain feed p now id rec v.state v.requests in
      elim (Bool-cases v.thrown) [
        | inl ended ↦ rw ended (quiet-Serves ((id, rec) ∷ queues) v.state.sends)
        | inr going ↦
            rw going (turn.state.sends, turn_of id rec v, service_queues-IsDue queues turn)
      ]
