-- ===== src/Desk/Walk/Kept.antt =====
-- What a walk leaves as it was, and whom its result names.
use solonpad_contracts.Base.{
  Bool, Bool-cases, List, Option, arith, inl, inr, refl, subst, suc, true, zero, ℕ, ◌*◌, ◌+◌, ◌≡◌,
}
use solonpad_contracts.Desk.Streams.{
  Stage, await_round, create_entry, day, empty_budget, find_entry, kind0_stage, ready, seal, sync,
  unbuyable, wait_epoch,
}
use solonpad_contracts.Desk.Ledger.{Chain, EntryView, Item, State, StreamRec, StreamView, send}
use solonpad_contracts.Desk.Walk.{
  End, Params, Step, await_round_step, continue, entry_now, entry_view_of, go_on, is_ready,
  on_stage, ready_step, step_send, stop, usdc_stream, views_of, walk, walk_step,
}

module _ {W : Type 0} (chain : Chain W) (p : Params) (now : ℕ) where
  -- A turn's end over the streams covered before it.
  abbrev pub Names : Item → End → Type 0
  Names item (is_ready r) = (r.key ≡ item.id) × (r.ready_at ≡ (item.epoch + 1) * day)
  Names item _ = true ≡ true

  abbrev pub Kept : Item → List ℕ → End × State W → Type 0
  Kept item covered out = Names item out.0 × (out.1.covered ≡ covered)

  abbrev KeptStep : Item → List ℕ → Step W → Type 0
  KeptStep item covered (stop end s) = Kept item covered (end, s)
  KeptStep item covered (go_on s) = s.covered ≡ covered

  on_stage-Kept :
      (item : Item) (rec : StreamRec) (pd : Bool) (v : StreamView) (entry : Option ℕ)
      (e : EntryView) (stage : Stage) (s : State W)
      → KeptStep item s.covered (on_stage chain p now item rec pd v entry e stage s)
  unfolding on_stage step_send send await_round_step ready_step
  on_stage-Kept item rec pd v entry e empty_budget s = ground arith
  on_stage-Kept item rec pd v entry e unbuyable s = ground arith
  on_stage-Kept item rec pd v entry e create_entry s = ground arith
  on_stage-Kept item rec pd v entry e seal s = ground arith
  on_stage-Kept item rec pd v entry e find_entry s = ground arith
  on_stage-Kept item rec pd v entry e sync s = ground arith
  on_stage-Kept item rec pd v entry e await_round s = ground arith
  on_stage-Kept item rec pd v entry e ready s = ground arith
  on_stage-Kept item rec pd v entry e wait_epoch s = ground arith

  walk_step-Kept :
      (item : Item) (rec : StreamRec) (pd : Bool) (s : State W)
      → KeptStep item s.covered (walk_step chain p now item rec pd s)
  unfolding walk_step
  walk_step-Kept item rec pd s =
      let v = chain.stream s.world item.id in
      let found = entry_now chain p now item rec v.is_sealed s in
      let e = entry_view_of chain p now item found.0 s.world in
      let switch =
        on_stage-Kept item rec pd v found.0 e
          (kind0_stage (views_of chain p now item rec v found.0 e)) (record s { book = found.1 }) in
      elim (Bool-cases (chain.readable s.world item.id)) [
        | inl reads ↦ rw reads switch
        | inr fails ↦ rw fails (refl, refl)
      ]

  continue-Kept :
      (item : Item) (covered : List ℕ) (step : Step W) (next : State W → End × State W)
      → KeptStep item covered step
      → ((s : State W) → s.covered ≡ covered → Kept item covered (next s))
      → Kept item covered (continue chain p now step next)
  continue-Kept item covered (stop end s) next h keeps = h
  continue-Kept item covered (go_on s) next h keeps = keeps s h

  walk-Kept :
      (n : ℕ) (item : Item) (rec : StreamRec) (pd : Bool) (s : State W) (covered : List ℕ)
      → s.covered ≡ covered
      → Kept item covered (walk chain p now n item rec pd s)
  unfolding walk
  walk-Kept zero item rec pd s covered h = (refl, h)
  walk-Kept (suc n) item rec pd s covered h =
      continue-Kept item covered (walk_step chain p now item rec pd s)
        (walk chain p now n item rec pd)
        (subst (λ c. KeptStep item c (walk_step chain p now item rec pd s)) h
          (walk_step-Kept item rec pd s))
        (λ t. walk-Kept n item rec pd t covered)

  pub usdc_stream-Kept :
      (item : Item) (rec : StreamRec) (pd : Bool) (s : State W)
      → Kept item s.covered (usdc_stream chain p now item rec pd s)
  unfolding usdc_stream
  usdc_stream-Kept item rec pd s = walk-Kept 5 item rec pd s s.covered refl
