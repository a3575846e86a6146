-- ===== src/Payout/Known.antt =====
-- The payout queues that the push keeper services (keepers/v3/push/keeper.mjs: knownQueues). Addresses are numbers; a
-- queue that the distributor does not have, or whose reading fails, is `none`.
pub mod Latest
mod Tests
use solonpad_contracts.Base.{
  Bool, List, Option, [], if◌then◌else◌, length, ltb, none, some, suc, zero, ℕ, ◌&&◌, ◌++◌, ◌+◌,
  ◌==◌, ◌∷◌,
}

pub record Queue : Type 0 where
  pub id : ℕ
  pub source : ℕ
  pub asset : ℕ
  pub epoch : ℕ
  pub revision : ℕ

-- The journal records `push:queues` and `push:scan`.
pub record Scan : Type 0 where
  pub listed : List Queue
  pub next : ℕ

-- The loop `for (;;)` from index `i` on, on fuel: the queues found.
pub read_forward : (queue_at : ℕ → Option Queue) (fuel i : ℕ) → List Queue
read_forward queue_at zero i = []
read_forward queue_at (suc fuel) i =
    let rest = read_forward queue_at fuel (suc i) in
    elim (queue_at i) [ none ↦ [] | some q ↦ q ∷ rest ]

-- Two queues of one source, epoch and asset.
abbrev pub same_key : Queue → Queue → Bool
same_key a b = a.source == b.source && a.epoch == b.epoch && a.asset == b.asset

-- A queue over the `Map`: it takes the place of an older revision.
pub put_latest : Queue → List Queue → List Queue
put_latest q [] = q ∷ []
put_latest q (x ∷ xs) =
    let rest = put_latest q xs in
    if same_key x q then (if ltb x.revision q.revision then q else x) ∷ xs else x ∷ rest

-- The loop over `merged`, with the `Map`'s values so far.
pub latest : List Queue → List Queue → List Queue
latest kept [] = kept
latest kept (q ∷ qs) = latest (put_latest q kept) qs

-- `knownQueues`
pub known_queues :
    (queue_at : ℕ → Option Queue) (fuel : ℕ) (execute : Bool) → Scan → List Queue × Scan
known_queues queue_at fuel execute s =
    let found = read_forward queue_at fuel s.next in
    let merged = s.listed ++ found in
    let stored : Scan = record { listed = merged; next = s.next + length found } in
    (latest [] merged, if execute && ltb 0 (length found) then stored else s)
