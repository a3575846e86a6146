-- ===== src/Payout/Prepare/Needed.antt =====
-- What the preparation of payout queues sends.
use solonpad_contracts.Base.{All, Bool, List, false, some, true, ℕ, ◌<◌, ◌≡◌, ◌≢◌, ◌≤◌, ◌⊎◌}
use solonpad_contracts.Payout.Prepare.{
  Allocation, Chain, Key, Op, Snapshot, Source, State, allocation_key, create_entry_source,
  open_queue, register, seal_index, source_key,
}

-- The allocation of an entry, as far as its queue is concerned, in a world: whose and what it is.
abbrev pub Same : {W : Type 0} → Chain W → (id : ℕ) → Allocation → W → Type 0
Same chain id a w =
    ((chain.allocation w id).source ≡ a.source) × ((chain.allocation w id).asset ≡ a.asset)

-- What the vault documents: an allocation that has a source keeps it with its asset, and a confirmed sealing leaves the
-- index sealed.
pub record Documented {W : Type 0} (chain : Chain W) : Type 0 where
  pub fixed :
      (w : W) (op : Op) (id : ℕ)
      → (chain.allocation w id).source ≢ 0
      → Same chain id (chain.allocation w id) (chain.call w op).0
  pub seals :
      (w : W) (id : ℕ)
      → (chain.call w (seal_index id)).1 ≡ true
      → chain.is_index_sealed (chain.call w (seal_index id)).0 id ≡ true

module _ {W : Type 0} (chain : Chain W) (documented : Documented chain) where
  -- The queue of an allocation whose participant index is sealed.
  abbrev pub FromAllocation : W → Key → Type 0
  FromAllocation w k =
      (id : ℕ) × (a : Allocation) × (k ≡ allocation_key chain id a)
      × Same chain id a w
      × (chain.is_index_sealed w id ≡ true)

  -- The queue of a source's epoch, as the world shows its snapshot.
  abbrev pub FromSource : W → Key → Type 0
  FromSource w k =
      (src : Source) × (epoch : ℕ) × (snap : Snapshot) × (chain.snapshot w src.address epoch
        ≡ some snap)
      × (k ≡ source_key chain src epoch snap)
      × (0 < snap.upper_bound)
      × (src.min_revision ≤ snap.revision)

  -- A call that the world it is made in asks for.
  abbrev pub IsNeeded : W × Op → Type 0
  IsNeeded (w, register source cursor) =
      (cursor ≡ chain.source_cursor w source) × (cursor < chain.required_bound w source)
  IsNeeded (w, seal_index id) =
      (chain.is_index_sealed w id ≡ false)
      × (chain.source_bound w id ≤ chain.source_cursor w (chain.allocation w id).source)
  IsNeeded (w, open_queue k) =
      (chain.is_queued w k ≡ false) × (0 < k.revision) × (FromAllocation w k ⊎ FromSource w k)
  IsNeeded (w, create_entry_source lane) = chain.entry_source w lane ≡ 0

  abbrev Needs : State W → Type 0
  Needs s = All IsNeeded s.sends

  abbrev NeedsAfter : List Source × State W → Type 0
  NeedsAfter out = Needs out.1

  -- Behind the sealing of an allocation's index, which is asked for: the calls are needed, the allocation is the same,
  -- and where it says so the index is sealed.
  abbrev Indexed : (id : ℕ) → Allocation → Bool × State W → Type 0
  Indexed id a out =
      Needs out.1
      × Same chain id a out.1.world
      × (out.0 ≡ true → chain.is_index_sealed out.1.world id ≡ true)
