-- ===== src/Round/Batch.antt =====
-- Which epochs to seal, which batch to start and when to advance a group's cursor
-- (keepers/v3/round/decide.mjs: sealableEpochs, planBatch, shouldAdvance, entriesHash;
-- keepers/v3/round/keeper.mjs: advanceWatermark).
pub mod Laws
mod Tests
use solonpad_contracts.Base.{
  Bool, List, Option, [], drop, false, if◌then◌else◌, leb, length, ltb, max, min, none, not, some,
  suc, zero, ℕ, ◌&&◌, ◌+◌, ◌-◌, ◌==◌, ◌||◌, ◌∷◌,
}

abbrev pub max_batch_entries : ℕ
max_batch_entries = 64

-- What `views(epoch)` answers for an epoch that the cache knows.
pub record EpochView : Type 0 where
  pub is_sealed : Bool
  pub budget : ℕ
  pub next_round_at : Option ℕ
  pub now_sec : ℕ

-- The tests of the loop body, the last `continue` before `out.push(epoch)`.
unfoldable pub is_sealable : Option EpochView → Bool
is_sealable none = false
is_sealable (some v) =
    not (v.is_sealed || v.budget == 0)
    && not (elim v.next_round_at [ none ↦ false | some at ↦ ltb v.now_sec at ])

-- `for (epoch = from; epoch < today; epoch++)`, over the `n` epochs left.
pub seal_loop : (views : ℕ → Option EpochView) (n epoch : ℕ) → List ℕ
seal_loop views zero epoch = []
seal_loop views (suc n) epoch =
    let rest = seal_loop views n (epoch + 1) in
    if is_sealable (views epoch) then epoch ∷ rest else rest

-- `sealableEpochs`; a missing `firstEpoch` is 0, so a negative `today - lookback` loses to it.
pub sealable_epochs :
    (today : ℕ) (first_epoch : Option ℕ) (lookback : ℕ) (views : ℕ → Option EpochView) → List ℕ
sealable_epochs today first_epoch lookback views =
    let from = max (elim first_epoch [ none ↦ 0 | some e ↦ e ]) (today - lookback) in
    seal_loop views (today - from) from

-- The loop of `advanceWatermark`, over `next = through + 1`, which is never negative: it stops at the
-- first epoch that is not final or not the next one.
pub final_prefix : (is_final : ℕ → Bool) (n epoch next : ℕ) → ℕ
final_prefix is_final zero epoch next = next
final_prefix is_final (suc n) epoch next =
    let rest = final_prefix is_final n (epoch + 1) (epoch + 1) in
    if epoch == next && is_final epoch then rest else next

-- `advanceWatermark`: the watermark recorded before (the first epoch above it) and after.
pub advance_watermark : (watermark from today : ℕ) (is_final : ℕ → Bool) → ℕ
advance_watermark watermark from today is_final =
    let start = max watermark from in
    let through = final_prefix is_final (today - from) from start in
    if ltb start through then through else watermark

pub data Defer : Type 0 where
  pending empty invalid_preview over_cost_limit below_minimum market_closed : Defer

pub data BatchPlan : Type 0 where
  defer : Defer → BatchPlan
  execute : (ids budgets : List ℕ) (total : ℕ) → BatchPlan

pub record BatchPreview : Type 0 where
  pub ids : List ℕ
  pub budgets : List ℕ
  pub total : ℕ
  pub minimum : ℕ
  pub active_rounds : ℕ
  pub max_active_rounds : ℕ
  pub market_open : Bool
  pub run_limit : ℕ

-- `planBatch`
pub plan_batch : BatchPreview → BatchPlan
plan_batch b =
    if leb b.max_active_rounds b.active_rounds
    then defer pending
    else if length b.ids == 0
    then defer empty
    else if ltb max_batch_entries (length b.ids) || not (length b.ids == length b.budgets)
    then defer invalid_preview
    else if ltb b.run_limit b.minimum
    then defer over_cost_limit
    else if ltb b.total b.minimum
    then defer below_minimum
    else if ltb b.run_limit b.total
    then defer invalid_preview
    else if not b.market_open
    then defer market_closed
    else execute b.ids b.budgets b.total

-- The loop of `shouldAdvance` over the ids from the cursor on: `n` counts the skippable head entries.
pub count_skippable : {A : Type 0} → (A → Bool) → List A → ℕ → ℕ
count_skippable is_skippable [] n = n
count_skippable is_skippable (x ∷ xs) n =
    let rest = count_skippable is_skippable xs (n + 1) in
    if not (ltb n max_batch_entries) then n else if not (is_skippable x) then n else rest

-- `shouldAdvance`
pub should_advance :
    {A : Type 0} (group_ids : List A) (cursor : ℕ) (is_skippable : A → Bool) (threshold : ℕ) → ℕ
should_advance group_ids cursor is_skippable threshold =
    let n = count_skippable is_skippable (drop cursor group_ids) 0 in
    if leb threshold n then min n max_batch_entries else 0

-- `entriesHash`, over `keccak(abi.encode(prev, entry, amount))` as a parameter: the reserved order's
-- hash is a fold. An entry without an amount makes the encoder throw.
module _ {H Entry : Type 0} (step_hash : H → Entry → ℕ → H) where
  pub entries_hash_from : H → List Entry → List ℕ → Option H
  entries_hash_from h [] amounts = some h
  entries_hash_from h (e ∷ entries) [] = none
  entries_hash_from h (e ∷ entries) (a ∷ amounts) =
      entries_hash_from (step_hash h e a) entries amounts
