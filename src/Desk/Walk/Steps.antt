-- ===== src/Desk/Walk/Steps.antt =====
-- What a walk along the chain sends.
use solonpad_contracts.Base.{
  All, Bool, Bool-cases, Option, arith, false, inl, inr, refl, suc, true, zero, ℕ, ◌/◌, ◌<◌, ◌≡◌,
  ◌≤◌,
}
use solonpad_contracts.Desk.Streams.{
  Stage, await_round, create_entry, empty_budget, epoch_over, find_entry, kind0_stage, p27, ready,
  seal, sync, unbuyable, usdc_grid, wait_epoch,
}
use solonpad_contracts.Desk.Ledger.{
  Chain, Item, Op, State, StreamRec, entry_source, seal_entry, send, sync_purchased,
}
use solonpad_contracts.Desk.Walk.{
  End, Params, Step, await_round_step, continue, entry_now, entry_view_of, go_on, on_stage,
  ready_step, step_send, stop, views_of, walk, walk_step,
}

module _ {W : Type 0} (chain : Chain W) (p : Params) (now : ℕ) where
  -- The world in which a call of a walk is made asks for just that call.
  abbrev pub Asked : Item → W × Op → Type 0
  Asked item (w, entry_source key) =
      let v = chain.stream w key in
      (key ≡ item.id)
      × (epoch_over now item.epoch ≡ true)
      × (v.is_sealed ≡ false)
      × (v.has_source ≡ false)
      × (usdc_grid ≤ v.total_credit27 / p27)
  Asked item (w, seal_entry key) =
      let v = chain.stream w key in
      (key ≡ item.id)
      × (epoch_over now item.epoch ≡ true)
      × (v.is_sealed ≡ false)
      × (v.has_source ≡ true)
      × (usdc_grid ≤ v.total_credit27 / p27)
  Asked item (w, sync_purchased key delivered entry) =
      let e = chain.entry_view w key entry in
      (key ≡ item.id)
      × ((chain.stream w key).is_sealed ≡ true)
      × (e.delivered ≡ delivered)
      × (e.purchased < delivered)
  Asked item (w, _) = true ≡ false

  state_of : Step W → State W
  state_of (stop end s) = s
  state_of (go_on s) = s

  on_stage-Asked :
      (item : Item) (rec : StreamRec) (pd : Bool) (entry : Option ℕ) (stage : Stage) (s : State W)
      → let v = chain.stream s.world item.id in
        let e = entry_view_of chain p now item entry s.world in
        kind0_stage (views_of chain p now item rec v entry e) ≡ stage
        → All (Asked item) s.sends
        → All (Asked item) (state_of (on_stage chain p now item rec pd v entry e stage s)).sends
  unfolding on_stage views_of kind0_stage state_of step_send send await_round_step ready_step
  on_stage-Asked item rec pd entry empty_budget s h a = a
  on_stage-Asked item rec pd entry unbuyable s h a = a
  on_stage-Asked item rec pd entry create_entry s h a = ground arith
  on_stage-Asked item rec pd entry seal s h a = ground arith
  on_stage-Asked item rec pd entry find_entry s h a = a
  on_stage-Asked item rec pd entry sync s h a = ground arith
  on_stage-Asked item rec pd entry await_round s h a = ground arith
  on_stage-Asked item rec pd entry ready s h a = ground arith
  on_stage-Asked item rec pd entry wait_epoch s h a = a

  walk_step-Asked :
      (item : Item) (rec : StreamRec) (pd : Bool) (s : State W)
      → All (Asked item) s.sends
      → All (Asked item) (state_of (walk_step chain p now item rec pd s)).sends
  unfolding walk_step
  walk_step-Asked item rec pd s a =
      let found = entry_now chain p now item rec (chain.stream s.world item.id).is_sealed s in
      let v = chain.stream s.world item.id in
      let e = entry_view_of chain p now item found.0 s.world in
      let switch =
        on_stage-Asked item rec pd found.0 (kind0_stage (views_of chain p now item rec v found.0 e))
          (record s { book = found.1 }) refl a in
      elim (Bool-cases (chain.readable s.world item.id)) [
        | inr fails ↦ rw fails (unfold state_of in a)
        | inl reads ↦ rw reads switch
      ]

  continue_keeps :
      (P : State W → Type 0) (step : Step W) (next : State W → End × State W)
      → P (state_of step)
      → ((s : State W) → P s → P (next s).1)
      → P (continue chain p now step next).1
  unfolding state_of
  continue_keeps P (stop end s) next h keeps = h
  continue_keeps P (go_on s) next h keeps = keeps s h

  -- Whatever the chain answers, each call that a walk makes is one that the world it is made in asks for:
  -- an entry source for an unsealed stream without one, a seal for an unsealed stream with one, both after
  -- the day and for a budget of at least one USDC unit, and a sync of just what was delivered and is not
  -- yet purchased.
  pub walk-Asked :
      (n : ℕ) (item : Item) (rec : StreamRec) (pd : Bool) (s : State W)
      → All (Asked item) s.sends
      → All (Asked item) (walk chain p now n item rec pd s).1.sends
  unfolding walk
  walk-Asked zero item rec pd s a = a
  walk-Asked (suc n) item rec pd s a =
      continue_keeps (λ t. All (Asked item) t.sends) (walk_step chain p now item rec pd s)
        (walk chain p now n item rec pd) (walk_step-Asked item rec pd s a)
        (walk-Asked n item rec pd)
