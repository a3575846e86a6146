-- ===== src/Desk/Walk/Settles.antt =====
-- Five steps are enough for a stream, on a chain whose confirmed calls do what the contracts document.
use solonpad_contracts.Base.{
  Bool, Bool-cases, Option, Option-cases, ap, arith, false, inl, inr, none, or_else, refl, some,
  subst, suc, sym, true, ℕ, ◌≡◌, ◌≢◌, ◌≤◌,
}
use solonpad_contracts.Desk.Streams.{
  Stage, await_round, create_entry, empty_budget, find_entry, kind0_stage, ready, seal, sync,
  unbuyable, wait_epoch,
}
use solonpad_contracts.Desk.Entries.{entry_id_of}
use solonpad_contracts.Desk.Ledger.{
  Book, Chain, EntryView, Item, Op, State, StreamRec, StreamView, entry_source, seal_entry, send,
  sync_purchased,
}
use solonpad_contracts.Desk.Walk.{
  End, Params, continue, entry_now, entry_view_of, on_stage, ready_step, stage_at, step_send,
  too_many_steps, usdc_stream, views_of, walk, walk_step,
}

-- `entrySource` leaves a source, `seal` a sealed stream, and `syncPurchased` the whole delivery purchased; a
-- sealed stream stays sealed.
pub record Documented {W : Type 0} (chain : Chain W) (id : ℕ) : Type 0 where
  pub source_set :
      (w : W)
      → (chain.call w (entry_source id)).1 ≡ true
      → (chain.stream (chain.call w (entry_source id)).0 id).has_source ≡ true
  pub seal_set :
      (w : W)
      → (chain.call w (seal_entry id)).1 ≡ true
      → (chain.stream (chain.call w (seal_entry id)).0 id).is_sealed ≡ true
  pub seal_kept :
      (w : W) (delivered entry : ℕ)
      → (chain.stream w id).is_sealed ≡ true
      → (chain.stream (chain.call w (sync_purchased id delivered entry)).0 id).is_sealed ≡ true
  pub synced :
      (w : W) (delivered entry : ℕ)
      → (chain.call w (sync_purchased id delivered entry)).1 ≡ true
      → let e = chain.entry_view (chain.call w (sync_purchased id delivered entry)).0 id entry in
        e.delivered ≤ e.purchased

module _ {W : Type 0} (chain : Chain W) (p : Params) (now : ℕ) (item : Item) (rec : StreamRec)
    (pd : Bool) where
  abbrev Settled : End × State W → Type 0
  Settled out = out.0 ≢ too_many_steps

  abbrev sealed_in : State W → Bool
  sealed_in s = (chain.stream s.world item.id).is_sealed

  abbrev entry_in : State W → Option ℕ × Book
  entry_in s = entry_now chain p now item rec (sealed_in s) s

  abbrev view_in : State W → EntryView
  view_in s = entry_view_of chain p now item (entry_in s).0 s.world

  abbrev walk_on : (n : ℕ) → State W → End × State W
  walk_on n s = walk chain p now n item rec pd s

  stage_in : State W → Stage
  unfolding stage_at
  stage_in = stage_at chain p now item rec

  abbrev SendsWell : (n : ℕ) → Op → State W → Type 0
  SendsWell n op s = Settled (continue chain p now (step_send chain p now op s) (walk_on n))

  -- It is enough to look at the stages that send.
  stage_settles :
      (n : ℕ) (v : StreamView) (entry : Option ℕ) (e : EntryView) (stage : Stage) (s : State W)
      → (stage ≡ create_entry → SendsWell n (entry_source item.id) s)
      → (stage ≡ seal → SendsWell n (seal_entry item.id) s)
      → (stage ≡ sync → SendsWell n (sync_purchased item.id e.delivered (or_else entry 0)) s)
      → Settled
          (continue chain p now (on_stage chain p now item rec pd v entry e stage s) (walk_on n))
  unfolding on_stage ready_step
  stage_settles n v entry e create_entry s a b c = a refl
  stage_settles n v entry e seal s a b c = b refl
  stage_settles n v entry e sync s a b c = c refl
  stage_settles n v entry e empty_budget s a b c = ground arith
  stage_settles n v entry e unbuyable s a b c = ground arith
  stage_settles n v entry e find_entry s a b c = ground arith
  stage_settles n v entry e await_round s a b c = ground arith
  stage_settles n v entry e ready s a b c = ground arith
  stage_settles n v entry e wait_epoch s a b c = ground arith

  abbrev looked_up : State W → State W
  looked_up s = record s { book = (entry_in s).1 }

  walk_on-suc :
      (n : ℕ) (s : State W)
      → (stage_in s ≡ create_entry → SendsWell n (entry_source item.id) (looked_up s))
      → (stage_in s ≡ seal → SendsWell n (seal_entry item.id) (looked_up s))
      → (stage_in s ≡ sync
          → SendsWell n
              (sync_purchased item.id (view_in s).delivered (or_else (entry_in s).0 0))
              (looked_up s))
      → Settled (walk_on (suc n) s)
  unfolding walk walk_step stage_in stage_at
  walk_on-suc n s a b c =
      let go =
        stage_settles n (chain.stream s.world item.id) (entry_in s).0 (view_in s) (stage_in s)
          (looked_up s) a b c in
      elim (Bool-cases (chain.readable s.world item.id)) [
        | inl reads ↦ rw reads go
        | inr fails ↦ rw fails (ground arith)
      ]

  -- After a call, the walk goes on only where it was confirmed.
  SendsWell-if :
      (n : ℕ) (op : Op) (s : State W)
      → ((chain.call s.world op).1 ≡ true → Settled (walk_on n (send chain op s).0))
      → SendsWell n op s
  unfolding step_send send
  SendsWell-if n op s h = elim (Bool-cases (chain.call s.world op).1) [
    | inl confirmed ↦ rw confirmed (h confirmed)
    | inr missed ↦ rw missed (ground arith)
  ]

  -- A lookup that found an entry finds it again in the book that it leaves, in any world.
  entry_now_again :
      (s t : State W) {id : ℕ}
      → t.book ≡ (entry_now chain p now item rec true s).1
      → (entry_now chain p now item rec true s).0 ≡ some id
      → (entry_now chain p now item rec true t).0 ≡ some id
  unfolding entry_now entry_id_of
  entry_now_again s t same found = ground arith

  sealed_stage :
      (t : State W) → sealed_in t ≡ true → (stage_in t ≢ create_entry) × (stage_in t ≢ seal)
  unfolding stage_in stage_at kind0_stage views_of
  sealed_stage t fixed = ground arith

  unsealed_stage : (t : State W) → sealed_in t ≡ false → stage_in t ≢ sync
  unfolding stage_in stage_at kind0_stage views_of
  unsealed_stage t open_still = ground arith

  sourced_stage :
      (t : State W) → (chain.stream t.world item.id).has_source ≡ true → stage_in t ≢ create_entry
  unfolding stage_in stage_at kind0_stage views_of
  sourced_stage t sourced = ground arith

  synced_stage :
      (t : State W) {id : ℕ}
      → sealed_in t ≡ true
      → (entry_in t).0 ≡ some id
      → (chain.entry_view t.world item.id id).delivered
        ≤ (chain.entry_view t.world item.id id).purchased
      → stage_in t ≢ sync
  unfolding stage_in stage_at kind0_stage views_of
  synced_stage t fixed found all_in = ground arith

  no_entry_stage : (t : State W) → (entry_in t).0 ≡ none → stage_in t ≢ sync
  unfolding stage_in stage_at kind0_stage views_of
  no_entry_stage t missing = ground arith

  sync_has_entry : (t : State W) → stage_in t ≡ sync → (id : ℕ) × ((entry_in t).0 ≡ some id)
  unfolding stage_in stage_at kind0_stage views_of
  sync_has_entry t at = elim (Option-cases (entry_in t).0) [
    | inl missing ↦ absurd (no_entry_stage t missing at)
    | inr found ↦ found
  ]

  synced_settles :
      (n : ℕ) (t : State W) {id : ℕ}
      → sealed_in t ≡ true
      → (entry_in t).0 ≡ some id
      → (chain.entry_view t.world item.id id).delivered
        ≤ (chain.entry_view t.world item.id id).purchased
      → Settled (walk_on (suc n) t)
  synced_settles n t fixed found all_in =
      walk_on-suc n t (λ at. absurd ((sealed_stage t fixed).0 at))
        (λ at. absurd ((sealed_stage t fixed).1 at))
        (λ at. absurd (synced_stage t fixed found all_in at))

  module _ (documented : Documented chain item.id) where
    sync_settles :
        (n : ℕ) (t : State W)
        → sealed_in t ≡ true
        → (id : ℕ) × ((entry_in t).0 ≡ some id)
        → SendsWell
            (suc n)
            (sync_purchased item.id (view_in t).delivered (or_else (entry_in t).0 0))
            (looked_up t)
    unfolding send
    sync_settles n t fixed (id, found) =
        let op = sync_purchased item.id (view_in t).delivered (or_else (entry_in t).0 0) in
        let after = (send chain op (looked_up t)).0 in
        let still : sealed_in after ≡ true =
          documented.seal_kept t.world (view_in t).delivered (or_else (entry_in t).0 0) fixed in
        let same : after.book ≡ (entry_now chain p now item rec true t).1 = rw fixed refl in
        let here : (entry_now chain p now item rec true t).0 ≡ some id = rw (sym fixed) found in
        let again : (entry_in after).0 ≡ some id = rw still (entry_now_again t after same here) in
        let named : or_else (entry_in t).0 0 ≡ id = ap (λ o. or_else o 0) found in
        SendsWell-if (suc n) op (looked_up t) (λ confirmed. synced_settles n after still again (
          subst
            (λ i.
              (chain.entry_view after.world item.id i).delivered
              ≤ (chain.entry_view after.world item.id i).purchased)
            named
            (documented.synced t.world (view_in t).delivered (or_else (entry_in t).0 0) confirmed)))

    sealed_settles : (n : ℕ) (t : State W) → sealed_in t ≡ true → Settled (walk_on (suc (suc n)) t)
    sealed_settles n t fixed =
        walk_on-suc (suc n) t (λ at. absurd ((sealed_stage t fixed).0 at))
          (λ at. absurd ((sealed_stage t fixed).1 at))
          (λ at. sync_settles n t fixed (sync_has_entry t at))

    sourced_settles :
        (n : ℕ) (t : State W)
        → (chain.stream t.world item.id).has_source ≡ true
        → Settled (walk_on (suc (suc (suc n))) t)
    sourced_settles n t sourced = elim (Bool-cases (sealed_in t)) [
      | inl fixed ↦ sealed_settles (suc n) t fixed
      | inr loose ↦
          walk_on-suc (suc (suc n)) t (λ at. absurd (sourced_stage t sourced at))
            (λ at. SendsWell-if (suc (suc n)) (seal_entry item.id) (looked_up t) (λ confirmed.
              sealed_settles n (send chain (seal_entry item.id) (looked_up t)).0
                (unfold send in documented.seal_set t.world confirmed)))
            (λ at. absurd (unsealed_stage t loose at))
    ]

    -- On a chain whose confirmed calls do what the contracts document, five steps are enough: the walk of a
    -- stream ends at what the stream waits for, at a call that was not confirmed or at a failed read, and
    -- never by running out of steps.
    pub usdc_stream_settles :
        (s : State W) → (usdc_stream chain p now item rec pd s).0 ≢ too_many_steps
    unfolding usdc_stream
    usdc_stream_settles s = elim (Bool-cases (sealed_in s)) [
      | inl fixed ↦ sealed_settles 3 s fixed
      | inr loose ↦
          walk_on-suc 4 s
            (λ at. SendsWell-if 4 (entry_source item.id) (looked_up s) (λ confirmed.
              sourced_settles 1 (send chain (entry_source item.id) (looked_up s)).0
                (unfold send in documented.source_set s.world confirmed)))
            (λ at. SendsWell-if 4 (seal_entry item.id) (looked_up s) (λ confirmed.
              sealed_settles 2 (send chain (seal_entry item.id) (looked_up s)).0
                (unfold send in documented.seal_set s.world confirmed)))
            (λ at. absurd (unsealed_stage s loose at))
    ]
