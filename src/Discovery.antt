-- ===== src/Discovery.antt =====
-- Discovery of sources from chain logs (keepers/v3/lib/discovery.mjs: earlier, LogDiscovery.upsert and
-- sync, mergeSources). What the node answers is outside the program: the logs of a range, in the order in
-- which it gave them, and whether it has a block. A log is already decoded to an item; one that is removed
-- or not ours is left out of the answer.
pub mod Sighted
pub mod Failing
mod Tests
use solonpad_contracts.Base.{
  Bool, List, Option, [], if◌then◌else◌, includes, ltb, min, none, some, suc, true, zero, ℕ, ◌&&◌,
  ◌++◌, ◌+◌, ◌-◌, ◌==◌, ◌||◌, ◌∷◌,
}
use solonpad_contracts.Base.Dict.{Dict, insert, lookup}

-- A sighting: the item's id with its block and log index.
pub record Item : Type 0 where
  pub id : ℕ
  pub block : ℕ
  pub log_index : ℕ

-- `earlier`
pub earlier : (a b : Item) → Bool
earlier a b = ltb a.block b.block || (a.block == b.block && ltb a.log_index b.log_index)

abbrev pub keeps_first : Option Item → Item → Bool
keeps_first none item = true
keeps_first (some prev) item = earlier item prev

-- `upsert`: the items, and whether the id is new.
pub upsert : Item → Dict Item → Dict Item
upsert item items =
    if keeps_first (lookup item.id items) item then insert item.id item items else items

-- The loop over the logs of one chunk.
pub upsert_all : List Item → Dict Item → Dict Item
upsert_all [] items = items
upsert_all (i ∷ is) items = upsert_all is (upsert i items)

pub record Config : Type 0 where
  pub chunk : ℕ
  pub confirmations : ℕ

-- The scanner's journal: the next block to read and the items.
pub record Scan : Type 0 where
  pub next : ℕ
  pub items : Dict Item

-- The loop of `sync` over chunks, on the chunks left of this tick; `safe` is the last block to read. The
-- node may have no block `to` yet: the items of the chunk are kept and the cursor stays.
pub sync_chunks :
    (left : ℕ) (logs : (from to : ℕ) → List Item) (has_block : ℕ → Bool) (chunk safe : ℕ)
    → Scan
    → Scan
sync_chunks zero logs has_block chunk safe s = s
sync_chunks (suc left) logs has_block chunk safe s =
    let to = min safe (s.next + chunk - 1) in
    let items = upsert_all (logs s.next to) s.items in
    let rest =
      sync_chunks left logs has_block chunk safe (record { next = to + 1; items = items }) in
    if ltb safe s.next
    then s
    else if has_block to
    then rest
    else record { next = s.next; items = items }

-- `sync`; a head below the confirmations leaves nothing to read.
pub sync :
    (max_chunks : ℕ) (logs : (from to : ℕ) → List Item) (has_block : ℕ → Bool)
    → Config
    → (head : ℕ) → Scan
    → Scan
sync most logs has_block config head s =
    if ltb head config.confirmations
    then s
    else sync_chunks most logs has_block config.chunk (head - config.confirmations) s

-- A configured or discovered source.
pub record Source : Type 0 where
  pub address : ℕ
  pub first_epoch : ℕ

-- The loop of `mergeSources`, with the addresses seen.
pub unseen : (seen : List ℕ) → List Source → List Source
unseen seen [] = []
unseen seen (s ∷ ss) =
    let skipped = unseen seen ss in
    let kept = unseen (s.address ∷ seen) ss in if includes seen s.address then skipped else s ∷ kept

-- `mergeSources`
pub merge_sources : (configured discovered : List Source) → List Source
merge_sources configured discovered = unseen [] (configured ++ discovered)
