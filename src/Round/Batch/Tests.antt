-- ===== src/Round/Batch/Tests.antt =====
-- A batch of two entries.
use solonpad_contracts.Base.{
  List, [], arith, false, includes, length, ltb, none, refl, some, true, ℕ, ◌*◌, ◌+◌, ◌-◌, ◌<◌, ◌^◌,
  ◌↔◌, ◌∷◌, ◌≡◌, ◌≤◌,
}
use solonpad_contracts.Round.Budget.{admitted, check_adapter_quote, minimum_budget}
use solonpad_contracts.Round.Batch.{
  BatchPreview, advance_watermark, count_skippable, entries_hash_from, execute, is_sealable,
  max_batch_entries, plan_batch, sealable_epochs, should_advance,
}
use solonpad_contracts.Round.Batch.Laws.{
  advance_watermark_final, entries_hash_binds, plan_batch-adapter, sealable_epochs_iff,
  should_advance_head,
}

abbrev preview : BatchPreview
preview = record {
  ids = 1 ∷ (2 ∷ []);
  budgets = 60 * 10 ^ 18 ∷ (70 * 10 ^ 18 ∷ []);
  total = 130 * 10 ^ 18;
  minimum = 100 * 10 ^ 18;
  active_rounds = 0;
  max_active_rounds = 4;
  market_open = true;
  run_limit = 500 * 10 ^ 18;
}

minimum_known : preview.minimum ≡ minimum_budget (10 ^ 17)
unfolding minimum_budget
minimum_known = refl

executes : plan_batch preview ≡ execute preview.ids preview.budgets preview.total
unfolding plan_batch
executes = refl

plan_batch-adapter_example :
    (check_adapter_quote preview.total (10 ^ 17) preview.run_limit ≡ admitted)
    × (length preview.ids ≡ length preview.budgets)
    × (0 < length preview.ids)
    × (length preview.ids ≤ max_batch_entries)
    × (preview.active_rounds < preview.max_active_rounds)
    × (preview.market_open ≡ true)
plan_batch-adapter_example =
    plan_batch-adapter preview (10 ^ 17) {ids = preview.ids} {budgets = preview.budgets}
      {total = preview.total} minimum_known executes

sealable_epochs_iff_example :
    (includes (sealable_epochs 9 (some 2) 5 (λ e. none)) 6 ≡ true)
    ↔ ((2 ≤ 6) × (9 ≤ 6 + 5) × (6 < 9) × (is_sealable none ≡ true))
sealable_epochs_iff_example = sealable_epochs_iff 9 2 5 (λ e. none) 6

advance_watermark_final_example :
    (3 ≤ advance_watermark 3 2 9 (λ e. ltb e 6))
    × (3 ≤ 5 → 2 ≤ 5 → 5 < advance_watermark 3 2 9 (λ e. ltb e 6) → ltb 5 6 ≡ true)
advance_watermark_final_example = advance_watermark_final 3 2 9 5 (λ e. ltb e 6)

-- A free hash: the entries and amounts themselves.
abbrev Chain : Type 0
Chain = List (ℕ × ℕ)

abbrev chain_step : Chain → ℕ → ℕ → Chain
chain_step h e a = (e, a) ∷ h

chain_step_injective :
    (h h' : Chain) (e e' a a' : ℕ)
    → chain_step h e a ≡ chain_step h' e' a'
    → (h ≡ h') × (e ≡ e') × (a ≡ a')
chain_step_injective h h' e e' a a' p = (cc, cc, cc)

one_entry : entries_hash_from chain_step [] (5 ∷ []) (9 ∷ []) ≡ some ((5, 9) ∷ [])
unfolding entries_hash_from
one_entry = refl

entries_hash_binds_example :
    (◌≡◌ {A = Chain} [] [])
    × (◌≡◌ {A = List ℕ} (5 ∷ []) (5 ∷ []))
    × (◌≡◌ {A = List ℕ} (9 ∷ []) (9 ∷ []))
entries_hash_binds_example =
    entries_hash_binds chain_step chain_step_injective (5 ∷ []) (5 ∷ []) (9 ∷ []) (9 ∷ []) [] []
      {r = (5, 9) ∷ []} refl refl refl one_entry one_entry

advances : 0 < should_advance (1 ∷ (2 ∷ (3 ∷ []))) 0 (λ x. ltb x 3) 2
unfolding should_advance count_skippable
advances = omega arith

should_advance_head_example :
    let n = should_advance (1 ∷ (2 ∷ (3 ∷ []))) 0 (λ x. ltb x 3) 2 in
    (2 ≤ n)
    × (n ≤ max_batch_entries)
    × (n ≤ 3 - 0)
    × (0 < n → ltb 1 3 ≡ true)
    × (0 ≡ n → 0 < max_batch_entries → ltb 1 3 ≡ false)
should_advance_head_example =
    should_advance_head (λ x. ltb x 3) (1 ∷ (2 ∷ (3 ∷ []))) 0 2 0 {x = 1} advances refl
