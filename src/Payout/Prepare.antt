-- ===== src/Payout/Prepare.antt =====
-- Opening payout queues (keepers/v3/push/keeper.mjs: prepareRoundAllocations, registerSource, discoveredDirectSources,
-- prepareDirectQueues, ensureQueue). The chain with the transaction sender is outside this part: views of a
-- world, and a call that gives the next world and whether it was confirmed. Addresses are numbers and the zero
-- address is 0; the fields of a queue's key stand for its hash. A read that throws outside `queueSnapshot` ends
-- the tick and is not modelled.
pub mod Needed
pub mod Registered
mod Tests
use solonpad_contracts.Base.{
  Bool, List, Option, [], false, if◌then◌else◌, leb, ltb, max, none, not, some, suc, true, zero, ℕ,
  ◌&&◌, ◌++◌, ◌-◌, ◌==◌, ◌||◌, ◌∷◌,
}

-- `queueKey`
pub record Key : Type 0 where
  pub source : ℕ
  pub pool : ℕ
  pub kind : ℕ
  pub epoch : ℕ
  pub asset : ℕ
  pub revision : ℕ

pub data Op : Type 0 where
  register : (source cursor : ℕ) → Op
  seal_index : (allocation : ℕ) → Op
  open_queue : Key → Op
  create_entry_source : (lane : ℕ) → Op

-- `vault.allocations(id)`
pub record Allocation : Type 0 where
  pub source : ℕ
  pub asset : ℕ
  pub revision : ℕ

-- `queueSnapshot` with `queueAsset` and `epochBudget`.
pub record Snapshot : Type 0 where
  pub revision : ℕ
  pub upper_bound : ℕ
  pub asset : ℕ
  pub budget : ℕ

pub record Chain (W : Type 0) : Type 0 where
  pub next_entry_id : W → ℕ
  pub allocation : W → (id : ℕ) → Allocation
  pub source_cursor : W → (source : ℕ) → ℕ
  pub required_bound : W → (source : ℕ) → ℕ
  pub source_bound : W → (id : ℕ) → ℕ
  pub is_index_sealed : W → (id : ℕ) → Bool
  pub is_queued : W → Key → Bool
  pub vault : ℕ
  pub vault_pool : ℕ
  pub snapshot : W → (source epoch : ℕ) → Option Snapshot
  pub kind_of : (source : ℕ) → ℕ
  pub pool_of : (source : ℕ) → ℕ
  pub ledger_lane : W → (lane : ℕ) → Bool
  pub funded : W → (lane : ℕ) → ℕ
  pub staged : W → (lane : ℕ) → ℕ
  pub entry_source : W → (lane : ℕ) → ℕ
  pub credit_total27 : W → (lane epoch : ℕ) → ℕ
  pub call : W → Op → W × Bool

-- The world, and every call with the world that it was made in.
pub record State (W : Type 0) : Type 0 where
  pub world : W
  pub sends : List (W × Op)

-- A direct source with its parameters; 0 for `minRevision` is none.
pub record Source : Type 0 where
  pub address : ℕ
  pub first_epoch : ℕ
  pub lookback : ℕ
  pub min_revision : ℕ
  pub require_budget : Bool

-- A discovered staking lane.
pub record Lane : Type 0 where
  pub lane : ℕ
  pub first_epoch : ℕ

module _ {W : Type 0} (chain : Chain W) where
  unfoldable pub send : Op → State W → State W × Bool
  send op s =
      let (w, confirmed) = chain.call s.world op in
      (record { world = w; sends = (s.world, op) ∷ s.sends }, confirmed)

  -- The loop of `registerSource`, with its bound of 64 pages as fuel.
  pub register_pages : (pages source : ℕ) → State W → Bool × State W
  register_pages zero source s = (false, s)
  register_pages (suc n) source s =
      let cursor = chain.source_cursor s.world source in
      let (after, confirmed) = send (register source cursor) s in
      let rest = register_pages n source after in
      if leb (chain.required_bound s.world source) cursor
      then (true, s)
      else if confirmed
      then rest
      else (false, after)

  pub register_source : (source : ℕ) → State W → Bool × State W
  unfolding register_pages
  register_source = register_pages 64

  -- `ensureQueue`
  pub ensure_queue : Key → State W → State W
  ensure_queue k s =
      let opened = (send (open_queue k) s).0 in if chain.is_queued s.world k then s else opened

  -- The participant index of an allocation: whether the queue may be opened.
  pub seal_index_of : (id source : ℕ) → State W → Bool × State W
  seal_index_of id source s =
      let (after, confirmed) = send (seal_index id) s in
      if chain.is_index_sealed s.world id
      then (true, s)
      else if ltb (chain.source_cursor s.world source) (chain.source_bound s.world id)
      then (false, s)
      else (confirmed, after)

  abbrev pub allocation_key : (id : ℕ) → Allocation → Key
  allocation_key id a = record {
    source = chain.vault;
    pool = chain.vault_pool;
    kind = 0;
    epoch = id;
    asset = a.asset;
    revision = a.revision;
  }

  -- One turn of the loop over allocations.
  pub prepare_allocation : (id : ℕ) → State W → State W
  prepare_allocation id s =
      let a = chain.allocation s.world id in
      let (registered, after) = register_source a.source s in
      let (indexed, ready) = seal_index_of id a.source after in
      let ensured = ensure_queue (allocation_key id a) ready in
      if a.source == 0 || a.revision == 0
      then s
      else if not registered
      then after
      else if not indexed
      then ready
      else ensured

  abbrev pub prepare_from : (n id : ℕ) → State W → State W
  prepare_from zero id s = s
  prepare_from (suc n) id s = prepare_from n (suc id) (prepare_allocation id s)

  -- `prepareRoundAllocations`
  pub prepare_round_allocations : State W → State W
  prepare_round_allocations s = prepare_from (chain.next_entry_id s.world) 1 s

  -- Whether the lane has been credited on one of the `n` days from `epoch` on.
  pub credited : W → (lane n epoch : ℕ) → Bool
  credited w lane zero epoch = false
  credited w lane (suc n) epoch =
      let rest = credited w lane n (suc epoch) in
      if ltb 0 (chain.credit_total27 w lane epoch) then true else rest

  abbrev pub lane_source : Lane → (address : ℕ) → List Source
  lane_source l address =
      record {
        address = address;
        first_epoch = l.first_epoch;
        lookback = 20;
        min_revision = 2;
        require_budget = false;
      }
      ∷ []

  -- A lane without an entry source: it is created once the lane has a credit.
  pub create_source : (today : ℕ) → Lane → State W → List Source × State W
  create_source today l s =
      let first = max l.first_epoch (today - 20) in
      let (after, confirmed) = send (create_entry_source l.lane) s in
      let made = chain.entry_source after.world l.lane in
      if not (credited s.world l.lane (today - first) first)
      then ([], s)
      else if not confirmed || made == 0
      then ([], after)
      else (lane_source l made, after)

  -- A turn of the loop of `discoveredDirectSources`.
  pub lane_turn : (today : ℕ) → Lane → State W → List Source × State W
  lane_turn today l s =
      let source = chain.entry_source s.world l.lane in
      let created = create_source today l s in
      if not (chain.ledger_lane s.world l.lane)
        && leb (chain.funded s.world l.lane) (chain.staged s.world l.lane)
      then ([], s)
      else if source == 0
      then created
      else (lane_source l source, s)

  -- `discoveredDirectSources`, without the tokens that come first.
  pub lane_sources : (today : ℕ) → List Lane → State W → List Source × State W
  lane_sources today [] s = ([], s)
  lane_sources today (l ∷ ls) s =
      let (here, after) = lane_turn today l s in
      let (later, end) = lane_sources today ls after in (here ++ later, end)

  -- The tests of one epoch of a direct source.
  abbrev pub queueable : Source → Snapshot → Bool
  queueable src snap =
      not (snap.revision == 0 || snap.upper_bound == 0)
      && leb src.min_revision snap.revision
      && not (src.require_budget && snap.budget == 0)
      && not (snap.asset == 0)

  abbrev pub source_key : Source → (epoch : ℕ) → Snapshot → Key
  source_key src epoch snap = record {
    source = src.address;
    pool = chain.pool_of src.address;
    kind = chain.kind_of src.address;
    epoch = epoch;
    asset = snap.asset;
    revision = snap.revision;
  }

  abbrev pub on_snapshot : Source → (epoch : ℕ) → Option Snapshot → State W → State W
  on_snapshot src epoch none s = s
  on_snapshot src epoch (some snap) s =
      let ensured = ensure_queue (source_key src epoch snap) s in
      if queueable src snap then ensured else s

  -- The `n` epochs of a source from `epoch` on.
  pub prepare_epochs : Source → (n epoch : ℕ) → State W → State W
  prepare_epochs src zero epoch s = s
  prepare_epochs src (suc n) epoch s =
      prepare_epochs src n (suc epoch)
        (on_snapshot src epoch (chain.snapshot s.world src.address epoch) s)

  -- `prepareDirectQueues` over the merged sources.
  pub prepare_sources : (today : ℕ) → List Source → State W → State W
  prepare_sources today [] s = s
  prepare_sources today (src ∷ srcs) s =
      let first = max src.first_epoch (today - src.lookback) in
      prepare_sources today srcs (prepare_epochs src (today - first) first s)
