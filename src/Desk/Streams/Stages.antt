-- ===== src/Desk/Streams/Stages.antt =====
-- When a stream may be paid out, and how much its cards claim together.
use solonpad_contracts.Base.{
  Bool-cases, List, [], arith, false, inl, inr, refl, suc, sum, true, zero, ℕ, ◌*◌, ◌+◌, ◌/◌, ◌<◌,
  ◌==◌, ◌↔◌, ◌∷◌, ◌≡◌, ◌≤◌,
}
use solonpad_contracts.Desk.Streams.{
  Views, day, kind0_stage, per_card_raw, ready, seal, unbuyable, usdc_grid, usdc_quoted,
}

-- A stream is ready for a payout exactly when its day is over, it is sealed with an entry, everything
-- delivered was synced, nothing of it is pending, at most dust is unbought and something was bought; a
-- seal is sent only for a day that is over and a budget of at least one 6-decimal unit.
pub kind0_stage_iff :
    (v : Views)
    → ((kind0_stage v ≡ ready) ↔ (
        ((v.epoch + 1) * day ≤ v.now)
        × (v.is_sealed ≡ true)
        × (v.has_entry ≡ true)
        × (v.delivered ≤ v.purchased_raw)
        × (v.pending ≡ 0)
        × (v.available < usdc_grid)
        × (0 < v.purchased_raw)))
      × ((kind0_stage v ≡ seal) ↔ (
          ((v.epoch + 1) * day ≤ v.now)
          × (v.is_sealed ≡ false)
          × (usdc_grid ≤ v.budget)
          × (v.has_source ≡ true)))
      × ((kind0_stage v ≡ unbuyable) → (v.delivered ≡ 0) × (v.purchased_raw ≡ 0) × (v.pending ≡ 0))
unfolding kind0_stage
kind0_stage_iff v = ground arith

-- The claims of all cards of one stream.
abbrev pub claims : ℕ → ℕ → List ℕ → List ℕ
claims total purchased [] = []
claims total purchased (c ∷ cs) =
    per_card_raw usdc_quoted c total purchased ∷ claims total purchased cs

div_mul-le : (a d : ℕ) → a / d * d ≤ a
div_mul-le a d = grind arith

claims_scaled :
    (total purchased : ℕ) (counters : List ℕ)
    → sum (claims total purchased counters) * total ≤ sum counters * purchased
unfolding per_card_raw
claims_scaled total purchased [] = omega arith
claims_scaled total purchased (c ∷ cs) =
    let one = div_mul-le (c * purchased) total in
    elim (Bool-cases (total == 0)) [
      | inl no_credit ↦ rw no_credit (omega (arith, claims_scaled total purchased cs))
      | inr credited ↦ rw credited (omega (arith, claims_scaled total purchased cs))
    ]

claims_zero : (purchased : ℕ) (counters : List ℕ) → sum (claims 0 purchased counters) ≡ 0
unfolding per_card_raw
claims_zero purchased [] = refl
claims_zero purchased (c ∷ cs) = omega (arith, claims_zero purchased cs)

cancel_total :
    (claimed purchased total : ℕ)
    → claimed * suc total ≤ suc total * purchased
    → claimed ≤ purchased
cancel_total claimed purchased total h = grind arith

mul_mono : (small large factor : ℕ) → small ≤ large → small * factor ≤ large * factor
mul_mono small large factor h = grind arith

-- Whatever the cards' counters, as long as they add up to at most the stream's total credit, the cards
-- together claim no more than the stock that was bought.
pub claims_within :
    (total purchased : ℕ) (counters : List ℕ)
    → sum counters ≤ total
    → sum (claims total purchased counters) ≤ purchased
claims_within zero purchased counters h = rw claims_zero (omega arith)
claims_within (suc t) purchased counters h =
    let scaled = claims_scaled (suc t) purchased counters in
    cancel_total (sum (claims (suc t) purchased counters)) purchased t
      (omega (arith, scaled, mul_mono (sum counters) (suc t) purchased h))
