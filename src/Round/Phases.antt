-- ===== src/Round/Phases.antt =====
-- The enqueue and batch phases of the round keeper (keepers/v3/round/keeper.mjs: enqueuePhase, batchPhase up to
-- planBatch). What the sender and the batcher's preview answer are functions from outside.
pub mod Aligned
mod Tests
use solonpad_contracts.Base.{
  Bool, List, Option, [], if◌then◌else◌, ltb, none, some, suc, zero, ℕ, ◌%◌, ◌&&◌, ◌+◌, ◌-◌, ◌==◌,
  ◌∷◌,
}
use solonpad_contracts.Round.Budget.{align_budget18, round_cap, usdc_grid}

-- The loop of `enqueuePhase` over the `n` ids from `id` on: the ids sent.
pub enqueue_ids : (is_confirmed : ℕ → Bool) (n id : ℕ) → List ℕ
enqueue_ids is_confirmed zero id = []
enqueue_ids is_confirmed (suc n) id =
    let rest = enqueue_ids is_confirmed n (id + 1) in id ∷ (if is_confirmed id then rest else [])

-- `enqueuePhase`
pub enqueue_phase : (is_confirmed : ℕ → Bool) (next last : ℕ) → List ℕ
enqueue_phase is_confirmed next last = enqueue_ids is_confirmed (last + 1 - next) next

-- An entry of the preview's window: what it has available and pending.
pub record WindowEntry : Type 0 where
  pub id : ℕ
  pub available : ℕ
  pub pending : ℕ

-- `queued`
pub queued_of : List WindowEntry → ℕ
queued_of [] = 0
queued_of (w ∷ ws) = (if w.pending == 0 then w.available else 0) + queued_of ws

-- `head`
pub head_of : List WindowEntry → Option ℕ
head_of [] = none
head_of (w ∷ ws) =
    let rest = head_of ws in if w.pending == 0 && ltb 0 w.available then some w.id else rest

pub data Cut : Type 0 where
  dust unaligned : (total : ℕ) → Cut
  cut_at : (max_budget total : ℕ) → Cut

-- The limit that the batch is started with: the cap of the queue, or the preview's total rounded down to the grid.
pub cut_batch : (preview : ℕ → ℕ) (queued run_limit minimum : ℕ) → Cut
cut_batch preview queued run_limit minimum =
    let first = round_cap queued run_limit minimum in
    let second = align_budget18 (preview first) in
    if preview first % usdc_grid == 0
    then cut_at first (preview first)
    else if second == 0
    then dust (preview first)
    else if preview second % usdc_grid == 0
    then cut_at second (preview second)
    else unaligned (preview second)
