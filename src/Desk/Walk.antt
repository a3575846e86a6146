-- ===== src/Desk/Walk.antt =====
-- A USDC-quoted stream walked along the chain (keepers/v3/desk/keeper.mjs: usdcStream): up to five steps, each
-- reading the stream again. The five steps are the source's own bound. One step is a function of its own,
-- since the loop does the same in each.
pub mod Steps
pub mod Settles
pub mod Kept
use solonpad_contracts.Base.{
  Bool, Option, false, if◌then◌else◌, ltb, none, not, or_else, some, suc, true, zero, ℕ, ◌&&◌, ◌*◌,
  ◌+◌, ◌-◌, ◌/◌, ◌==◌, ◌∷◌,
}
use solonpad_contracts.Desk.Streams.{
  Stage, Views, await_round, create_entry, day, empty_budget, find_entry, kind0_stage, p27,
  per_card_raw, ready, seal, sync, unbuyable, usdc_quoted, wait_epoch,
}
use solonpad_contracts.Desk.Ledger.{
  Book, Chain, EntryView, Item, Op, State, StreamRec, StreamView, entry_source, not_bought,
  patch_stream, seal_entry, send, sync_purchased,
}
use solonpad_contracts.Desk.Entries.{entry_id_of}

-- `DESK_DEFAULTS` as far as the keeper itself reads them.
pub record Params : Type 0 where
  pub lookback_days : ℕ
  pub deliver_alert_sec : ℕ
  pub scan_margin_sec : ℕ
  pub price_alert_sec : ℕ
  pub price_margin_sec : ℕ
  pub demand_refresh_sec : ℕ
  pub max_keys_per_queue : ℕ
  pub margin_bps : ℕ
  pub max_passes : ℕ

-- A stream that can be put in a queue.
pub record Ready : Type 0 where
  pub key : ℕ
  pub asset : ℕ
  pub revision : ℕ
  pub per_card : ℕ
  pub ready_at : ℕ

-- How a stream's turn ends.
pub data End : Type 0 where
  is_ready : Ready → End
  found_empty found_unbuyable no_entry_yet awaits_round unconfirmed waits too_many_steps threw : End

pub data Step (W : Type 0) : Type 0 where
  stop : End → State W → Step W
  go_on : State W → Step W

abbrev pub no_entry : EntryView
no_entry = record { delivered = 0; available = 0; pending = 0; purchased = 0 }

abbrev pub has : Option ℕ → Bool
has none = false
has (some n) = true

-- `rec.sealedSeen != null ? now - rec.sealedSeen : null`
abbrev pub since_seen : (now : ℕ) → Option ℕ → Option ℕ
since_seen now none = none
since_seen now (some seen) = some (now - seen)

-- `a !== b` on an entry id.
abbrev pub same_entry : Option ℕ → Option ℕ → Bool
same_entry none none = true
same_entry (some a) (some b) = a == b
same_entry _ _ = false

module _ {W : Type 0} (chain : Chain W) (p : Params) (now : ℕ) where
  -- `rec.entryId ?? null`, and `entryIdOf` for a sealed stream without one.
  pub entry_now : Item → StreamRec → (is_sealed : Bool) → State W → Option ℕ × Book
  entry_now item rec is_sealed s = elim rec.entry_id [
    | some id ↦ (some id, s.book)
    | none ↦
        let looked_up =
          entry_id_of (chain.desk_key_of s.world) (chain.next_entry_id s.world) item.id s.book in
        if is_sealed then looked_up else (none, s.book)
  ]

  abbrev pub entry_view_of : Item → Option ℕ → W → EntryView
  entry_view_of item none w = no_entry
  entry_view_of item (some id) w = chain.entry_view w item.id id

  -- The arguments of `kind0Stage`.
  pub views_of : Item → StreamRec → StreamView → Option ℕ → EntryView → Views
  views_of item rec v entry e = record {
    now = now;
    epoch = item.epoch;
    budget = v.total_credit27 / p27;
    is_sealed = v.is_sealed;
    has_source = v.has_source;
    has_entry = has entry;
    delivered = e.delivered;
    purchased_raw = e.purchased;
    available = e.available;
    pending = e.pending;
    sealed_for = since_seen now rec.sealed_seen;
    unbuyable_after_sec = p.deliver_alert_sec;
  }

  -- A call, and whether the walk goes on behind it.
  pub step_send : Op → State W → Step W
  step_send op s =
      let (after, confirmed) = send chain op s in
      if confirmed then go_on after else stop unconfirmed after

  -- `await-round`: since when the stream is sealed, and the alert when it is not bought in time; the reason 1
  -- is BelowMinimum.
  pub await_round_step : Item → StreamRec → Option ℕ → State W → State W
  await_round_step item rec entry s =
      let since = or_else rec.sealed_seen now in
      let noted =
        if same_entry rec.entry_id entry && has rec.sealed_seen
        then s
        else patch_stream item.id (λ r. record r { entry_id = entry; sealed_seen = some since })
            s in
      let reason = chain.entry_reason s.world (or_else entry 0) in
      if has entry && ltb p.deliver_alert_sec (now - since) && not (reason == 1)
      then record noted { alerts = not_bought (or_else entry 0) reason ∷ noted.alerts }
      else noted

  -- `ready`
  pub ready_step : Item → StreamRec → StreamView → Option ℕ → EntryView → State W → Step W
  ready_step item rec v entry e s =
      let (asset, revision) = chain.delivery s.world item.id in
      let noted =
        if same_entry rec.entry_id entry
        then s
        else patch_stream item.id (λ r. record r { entry_id = entry }) s in
      stop
        (is_ready (record {
          key = item.id;
          asset = asset;
          revision = revision;
          per_card = per_card_raw usdc_quoted v.counter v.total_credit27 e.purchased;
          ready_at = (item.epoch + 1) * day;
        }))
        noted

  -- The `switch (stage)`.
  pub on_stage :
      Item
      → StreamRec
      → (protocol_done : Bool) → StreamView
      → Option ℕ
      → EntryView
      → Stage
      → State W
      → Step W
  on_stage item rec pd v entry e empty_budget s =
      stop found_empty (patch_stream item.id (λ r. record r { is_done = pd; empty = true }) s)
  on_stage item rec pd v entry e unbuyable s =
      stop found_unbuyable (
        patch_stream item.id (λ r. record r { is_done = pd; unbuyable = true; entry_id = entry }) s)
  on_stage item rec pd v entry e create_entry s = step_send (entry_source item.id) s
  on_stage item rec pd v entry e seal s = step_send (seal_entry item.id) s
  on_stage item rec pd v entry e find_entry s = stop no_entry_yet s
  on_stage item rec pd v entry e sync s =
      step_send (sync_purchased item.id e.delivered (or_else entry 0)) s
  on_stage item rec pd v entry e await_round s =
      stop awaits_round (await_round_step item rec entry s)
  on_stage item rec pd v entry e ready s = ready_step item rec v entry e s
  on_stage item rec pd v entry e wait_epoch s = stop waits s

  -- The stage that the readings of a step show.
  pub stage_at : Item → StreamRec → State W → Stage
  stage_at item rec s =
      let v = chain.stream s.world item.id in
      let entry = (entry_now item rec v.is_sealed s).0 in
      kind0_stage (views_of item rec v entry (entry_view_of item entry s.world))

  -- One step of the loop.
  pub walk_step : Item → StreamRec → (protocol_done : Bool) → State W → Step W
  walk_step item rec pd s =
      let v = chain.stream s.world item.id in
      let (entry, book) = entry_now item rec v.is_sealed s in
      let e = entry_view_of item entry s.world in
      if not (chain.readable s.world item.id)
      then stop threw s
      else on_stage item rec pd v entry e (kind0_stage (views_of item rec v entry e))
          (record s { book = book })

  abbrev pub continue : Step W → (State W → End × State W) → End × State W
  continue (stop end s) next = (end, s)
  continue (go_on s) next = next s

  -- The loop of `usdcStream`.
  pub walk : (steps : ℕ) → Item → StreamRec → (protocol_done : Bool) → State W → End × State W
  walk zero item rec pd s = (too_many_steps, s)
  walk (suc n) item rec pd s = continue (walk_step item rec pd s) (walk n item rec pd)

  -- `usdcStream`
  pub usdc_stream : Item → StreamRec → (protocol_done : Bool) → State W → End × State W
  unfolding walk
  usdc_stream = walk 5
