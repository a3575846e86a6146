-- ===== src/Desk/Pass/Tests.antt =====
-- Batches of a queue of four cards with one failing card.
use solonpad_contracts.Base.{List, [], arith, false, refl, true, ℕ, ◌*◌, ◌+◌, ◌<◌, ◌∷◌, ◌≡◌, ◌≤◌}
use solonpad_contracts.Desk.Pass.{
  Batch, GasConfig, PassRecord, applied, desk_gas_plan, max_cards, pass_update, run_batches,
}
use solonpad_contracts.Desk.Pass.Progress.{
  Counts, IsBounded, desk_gas_plan_fits, passes_made, run_batches-IsBounded,
}

abbrev fresh : PassRecord
fresh = record {
  cursor = 0;
  pass_paid = 0;
  pass_failed = 0;
  passes = 0;
  last_paid = 0;
  last_failed = 0;
  is_done = false;
}

abbrev batch : (start after paid failed : ℕ) → Batch
batch start after paid failed = record {
  start = start;
  after = after;
  upper_bound = 4;
  paid = paid;
  failed = failed;
}

abbrev batches : List Batch
batches = batch 0 2 2 0 ∷ (batch 2 4 1 1 ∷ (batch 0 4 0 1 ∷ []))

run_batches-IsBounded_example :
    Counts 2 (passes_made 2 fresh batches) fresh (run_batches 2 fresh batches)
    × IsBounded 2 (run_batches 2 fresh batches)
run_batches-IsBounded_example =
    run_batches-IsBounded 2 fresh batches (omega arith, λ e. omega arith)

batches_run : (run_batches 2 fresh batches).is_done ≡ true
unfolding run_batches applied pass_update
batches_run = refl

abbrev gas_config : GasConfig
gas_config = record {
  max_tx_gas = 15_000_000;
  fixed_gas = 150_000;
  per_card_gas = 40_000;
  per_key_card_gas = 60_000;
}

desk_gas_plan_fits_example :
    let plan = desk_gas_plan gas_config 8 32 in
    let per_card = 40_000 + 60_000 * 8 in
    (1 ≤ plan.cards)
    × (plan.cards ≤ max_cards)
    × (plan.gas_limit ≡ 150_000 + plan.reserve + plan.cards * per_card)
    × (500_000 * 8 + 100_000 ≤ plan.reserve)
    × (0 < per_card → 150_000 + plan.reserve + per_card ≤ 15_000_000 → plan.gas_limit ≤ 15_000_000)
desk_gas_plan_fits_example = desk_gas_plan_fits gas_config 8 32
