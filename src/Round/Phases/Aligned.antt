-- ===== src/Round/Phases/Aligned.antt =====
-- Only whole 6-decimal amounts are planned, and the queue is first in, first out.
use solonpad_contracts.Base.{
  Bool, Bool-cases, arith, includes, inl, inr, subst, suc, true, zero, ℕ, ℕ_cases, ◌%◌, ◌+◌, ◌<◌,
  ◌≡◌, ◌≤◌,
}
use solonpad_contracts.Round.Budget.{align_budget18, round_cap, usdc_grid}
use solonpad_contracts.Round.Budget.Bounds.{align_budget18_lem, round_cap_grid}
use solonpad_contracts.Round.Phases.{cut_at, cut_batch, enqueue_ids}

-- A batch that goes on to be planned has a total on the 6-decimal grid, which is what the batcher previews for its
-- limit, and both are within the run limit, provided that a preview never exceeds the budget it is asked for.
pub cut_batch_aligned :
    (preview : ℕ → ℕ) (queued run_limit minimum max_budget total : ℕ)
    → ((b : ℕ) → preview b ≤ b)
    → cut_batch preview queued run_limit minimum ≡ cut_at max_budget total
    → (total % usdc_grid ≡ 0)
      × (total ≡ preview max_budget)
      × (max_budget ≤ run_limit)
      × (total ≤ run_limit)
      × (max_budget % usdc_grid ≡ 0)
unfolding cut_batch
cut_batch_aligned preview queued run_limit minimum max_budget total bounded h =
    let first = round_cap queued run_limit minimum in
    let (on_grid, capped) = round_cap_grid queued run_limit minimum in
    let one = bounded first in
    let second = align_budget18 (preview first) in
    let two = bounded second in
    let below = align_budget18_lem (preview first) in
    ground (arith, one, two, below, on_grid, capped)

-- The entries that are enqueued are consecutive from the next one on, and each but the last was confirmed: an id
-- is sent only after every id before it.
pub enqueue_ids_fifo :
    (is_confirmed : ℕ → Bool) (n id k : ℕ)
    → includes (enqueue_ids is_confirmed n id) k ≡ true
    → (id ≤ k) × (k < id + n) × ((j : ℕ) → id ≤ j → j < k → is_confirmed j ≡ true)
unfolding enqueue_ids
enqueue_ids_fifo is_confirmed zero id k h = absurd (ground arith)
enqueue_ids_fifo is_confirmed (suc n) id k h = elim (ℕ_cases id k) [
  | inl here ↦
      (omega (arith, here), omega (arith, here), λ j low high. absurd (omega (arith, here)))
  | inr later ↦ elim (Bool-cases (is_confirmed id)) [
    | inr stopped ↦ absurd (ground (arith, stopped, later))
    | inl went ↦
        let in_rest : includes (enqueue_ids is_confirmed n (id + 1)) k ≡ true =
          ground (arith, went, later) in
        let (low, high, each) = enqueue_ids_fifo is_confirmed n (id + 1) k in_rest in
        (
          omega arith,
          omega arith,
          λ j a b. elim (ℕ_cases id j) [
            | inl same ↦ subst (λ x. is_confirmed x ≡ true) same went
            | inr other ↦ each j (omega (arith, other)) b
          ],
        )
  ]
]
