-- ===== src/Round/Phases/Tests.antt =====
-- A queue of three hundred dollars and a bit of dust.
use solonpad_contracts.Base.{arith, min, refl, ℕ, ◌%◌, ◌*◌, ◌+◌, ◌^◌, ◌≡◌, ◌≤◌}
use solonpad_contracts.Round.Budget.{
  align_budget18, even_round, pick_cap, round_cap, rounds_of, usdc_grid,
}
use solonpad_contracts.Round.Phases.{cut_at, cut_batch}
use solonpad_contracts.Round.Phases.Aligned.{cut_batch_aligned}

-- A preview that takes what is asked for, up to the queue.
abbrev previewed : ℕ → ℕ
previewed b = min b (300 * 10 ^ 18 + 7)

previewed-bounded : (b : ℕ) → previewed b ≤ b
previewed-bounded b = omega arith

cuts :
    cut_batch previewed (300 * 10 ^ 18 + 7) (1_000 * 10 ^ 18) (100 * 10 ^ 18)
    ≡ cut_at (300 * 10 ^ 18) (300 * 10 ^ 18)
unfolding cut_batch round_cap pick_cap rounds_of even_round align_budget18
cuts = refl

cut_batch_aligned_example :
    (300 * 10 ^ 18 % usdc_grid ≡ 0)
    × (300 * 10 ^ 18 ≡ previewed (300 * 10 ^ 18))
    × (300 * 10 ^ 18 ≤ 1_000 * 10 ^ 18)
    × (300 * 10 ^ 18 ≤ 1_000 * 10 ^ 18)
    × (300 * 10 ^ 18 % usdc_grid ≡ 0)
cut_batch_aligned_example =
    cut_batch_aligned previewed (300 * 10 ^ 18 + 7) (1_000 * 10 ^ 18) (100 * 10 ^ 18)
      (300 * 10 ^ 18) (300 * 10 ^ 18) previewed-bounded cuts
