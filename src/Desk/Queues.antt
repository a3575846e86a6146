-- ===== src/Desk/Queues.antt =====
-- Which payout queues the Desk keeper services (keepers/v3/desk/keeper.mjs: scanQueues, queueWorth, perCardOf).
pub mod Adopted
use solonpad_contracts.Base.{
  Bool, List, Option, [], false, if◌then◌else◌, includes, leb, none, or_else, some, suc, true, zero,
  ℕ, ◌&&◌, ◌*◌, ◌++◌, ◌+◌, ◌/◌, ◌==◌, ◌||◌, ◌∷◌,
}
use solonpad_contracts.Base.Dict.{Dict, insert, lookup}
use solonpad_contracts.Desk.Streams.{e18, per_card_raw, stock_quoted, usdc_quoted}
use solonpad_contracts.Desk.Ledger.{Chain, QueueRec, QueueView, State, no_pass}

-- The record of a queue read from the chain, over what the journal held of it.
pub queue_rec : QueueView → Option QueueRec → QueueRec
queue_rec q none = record {
  content = q.content;
  upper_bound = q.upper_bound;
  adopted_cursor = some q.cursor;
  ours = false;
  serviced = none;
  adopted = false;
  pass = no_pass;
  price_wait_since = none;
}
queue_rec q (some prev) = record prev {
  content = q.content;
  upper_bound = q.upper_bound;
  adopted_cursor = if prev.ours then prev.adopted_cursor else some q.cursor;
}

-- `rec.keys.every(k => known.has(k))`
abbrev pub every_known : (known keys : List ℕ) → Bool
every_known known [] = true
every_known known (k ∷ ks) =
    let rest = every_known known ks in if includes known k then rest else false

-- `rec.adoptedCursor === rec.upperBound`
abbrev pub is_at : Option ℕ → ℕ → Bool
is_at none n = false
is_at (some m) n = m == n

abbrev pub is_serviced : QueueRec → Bool
is_serviced rec = or_else rec.serviced false

-- The streams of the queues serviced.
pub covered_by : Dict QueueRec → List ℕ
covered_by [] = []
covered_by ((id, rec) ∷ queues) =
    let rest = covered_by queues in if is_serviced rec then rec.content.keys ++ rest else rest

module _ {W : Type 0} (chain : Chain W) where
  -- The loop `for (;;)` that reads queues forward from `i` until one is missing, on fuel.
  pub read_queues : (fuel : ℕ) → W → (i : ℕ) → Dict QueueRec → ℕ × Dict QueueRec
  read_queues zero w i queues = (i, queues)
  read_queues (suc fuel) w i queues = elim (chain.queue w i) [
    | none ↦ (i, queues)
    | some q ↦ read_queues fuel w (suc i) (insert i (queue_rec q (lookup i queues)) queues)
  ]

  -- `perCardOf`
  pub per_card_of : W → (key : ℕ) → ℕ
  per_card_of w key =
      let v = chain.stream w key in
      let purchased : ℕ = elim v.kind [
        | stock_quoted ↦ 0
        | usdc_quoted ↦ chain.purchased_raw w key
      ] in
      per_card_raw v.kind v.counter v.total_credit27 purchased

  -- The sum of `queueWorth`, `none` when a read fails.
  pub raw_of : W → (keys : List ℕ) → Option ℕ
  raw_of w [] = some 0
  raw_of w (k ∷ ks) =
      let rest = raw_of w ks in
      if chain.readable w k
      then elim rest [ none ↦ none | some raw ↦ some (per_card_of w k + raw) ]
      else none

  -- `queueWorth`
  pub queue_worth : W → QueueRec → Option Bool
  queue_worth w rec = elim (raw_of w rec.content.keys) as (λ _. Option Bool) [
    | none ↦ none
    | some raw ↦ elim (chain.price w rec.content.asset) as (λ _. Option Bool) [
      | none ↦ none
      | some price ↦ some (leb (chain.minimum w) (raw * price / e18))
    ]
  ]

  -- A queue on its worth: serviced or not, and done when a full pass ran before the keeper knew of it.
  abbrev pub adopt : QueueRec → Option Bool → QueueRec
  adopt rec none = rec
  adopt rec (some serviced) = record rec {
    serviced = some serviced;
    adopted = true;
    pass = record rec.pass {
      is_done = rec.pass.is_done || (serviced && is_at rec.adopted_cursor rec.upper_bound);
    };
  }

  -- The loop over the records not yet judged.
  pub judge_queue : (known : List ℕ) → W → QueueRec → QueueRec
  judge_queue known w rec = elim rec.serviced [
    | some judged ↦ rec
    | none ↦
        let worth = adopt rec (queue_worth w rec) in
        if every_known known rec.content.keys then worth else rec
  ]

  pub judge_queues : (known : List ℕ) → W → Dict QueueRec → Dict QueueRec
  judge_queues known w [] = []
  judge_queues known w ((id, rec) ∷ queues) =
      (id, judge_queue known w rec) ∷ judge_queues known w queues

  -- `scanQueues`
  unfoldable pub scan_queues : (fuel : ℕ) (known : List ℕ) → State W → State W
  scan_queues fuel known s =
      let (next, found) = read_queues fuel s.world s.next_queue s.queues in
      let judged = judge_queues known s.world found in
      record s { queues = judged; next_queue = next; covered = covered_by judged }
