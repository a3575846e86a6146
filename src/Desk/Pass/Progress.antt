-- ===== src/Desk/Pass/Progress.antt =====
-- A payout call fits its gas, and a queue ends after at most the configured passes.
use solonpad_contracts.Base.{
  Bool, Bool-cases, List, [], arith, false, if◌then◌else◌, inl, inr, ltb, min, not, refl, subst,
  suc, sym, true, ℕ, ◌&&◌, ◌*◌, ◌+◌, ◌-◌, ◌/◌, ◌<◌, ◌==◌, ◌↔◌, ◌∷◌, ◌≡◌, ◌≢◌, ◌≤◌, ◌⊎◌,
}
use solonpad_contracts.Base.Order.{fit-max}
use solonpad_contracts.Desk.Pass.{
  Batch, GasConfig, PassRecord, applied, desk_gas_plan, max_cards, pass_update, run_batches,
}

n_le : (a b c : ℕ) → min a (min b c) ≤ c
n_le a b c = omega arith

-- The planned call always has the reserve the contract asks for left before its last card, has between
-- one and thirty-two cards, and when one card fits under the transaction's gas limit, stays within it.
pub desk_gas_plan_fits :
    (config : GasConfig) (keys wanted : ℕ)
    → let plan = desk_gas_plan config keys wanted in
      let per_card = config.per_card_gas + config.per_key_card_gas * keys in
      (1 ≤ plan.cards)
      × (plan.cards ≤ max_cards)
      × (plan.gas_limit ≡ config.fixed_gas + plan.reserve + plan.cards * per_card)
      × (500_000 * keys + 100_000 ≤ plan.reserve)
      × (0 < per_card
          → config.fixed_gas + plan.reserve + per_card ≤ config.max_tx_gas
          → plan.gas_limit ≤ config.max_tx_gas)
unfolding desk_gas_plan
desk_gas_plan_fits config keys wanted =
    let p = config.per_card_gas + config.per_key_card_gas * keys in
    let base = config.fixed_gas + (500_000 * keys + 100_000) in
    let fit = (config.max_tx_gas - base) / p in
    let n = min wanted (min max_cards fit) in
    (
      omega arith,
      omega arith,
      refl,
      omega arith,
      λ pos room.
          let regular : ltb 0 p ≡ true = ground arith in
          let left : config.max_tx_gas - config.fixed_gas - (500_000 * keys + 100_000)
              ≡ config.max_tx_gas - base =
            omega arith in
          rw regular
            (rw left (fit-max base p config.max_tx_gas n room (n_le wanted max_cards fit))),
    )

-- The passes of a queue that is not finished stay below the limit.
abbrev pub IsBounded : (max_passes : ℕ) → PassRecord → Type 0
IsBounded most rec = (rec.passes ≤ most) × (rec.is_done ≡ false → rec.passes < most)

-- A batch that did not move the cursor changes nothing. One that moved it adds its payments and failures
-- to the pass, or closes the pass when the cursor has reached the bound; the queue is then finished exactly
-- when it was before, the pass had no failure, or the limit of passes is reached, and the alert is raised
-- exactly when the pass failed for some card and was the last one allowed.
pub pass_update_accounts :
    (most : ℕ) (rec : PassRecord) (b : Batch)
    → let u = pass_update most rec b in
      let next = applied rec u.patch in
      let failed = rec.pass_failed + b.failed in
      (b.after ≡ b.start → (next ≡ rec) × (u.is_alert ≡ false))
      × (b.after ≢ b.start
          → b.after ≢ b.upper_bound
          → (next.cursor ≡ b.after)
            × (next.pass_paid ≡ rec.pass_paid + b.paid)
            × (next.pass_failed ≡ failed)
            × (next.passes ≡ rec.passes)
            × (u.is_alert ≡ false))
      × (b.after ≢ b.start
          → b.after ≡ b.upper_bound
          → (next.passes ≡ suc rec.passes)
            × (next.last_paid ≡ rec.pass_paid + b.paid)
            × (next.last_failed ≡ failed)
            × ((next.is_done ≡ true)
                ↔ ((rec.is_done ≡ true) ⊎ ((failed ≡ 0) ⊎ (most ≤ suc rec.passes))))
            × ((u.is_alert ≡ true) ↔ ((0 < failed) × (most ≤ suc rec.passes))))
unfolding pass_update applied
pass_update_accounts most rec b = ground arith

pass_update-IsBounded :
    (most : ℕ) (rec : PassRecord) (b : Batch)
    → rec.is_done ≡ false
    → IsBounded most rec
    → IsBounded most (applied rec (pass_update most rec b).patch)
unfolding pass_update applied
pass_update-IsBounded most rec b going (le, lt) = let below = lt going in ground arith

if_either :
    {A : Type 0} (P : A → Type 0) (test : Bool) (x y : A)
    → (test ≡ true → P x)
    → (test ≡ false → P y)
    → P (if test then x else y)
if_either P true x y f g = f refl
if_either P false x y f g = g refl

run_batches-kept :
    (most : ℕ) (rec : PassRecord) (batches : List Batch)
    → IsBounded most rec
    → IsBounded most (run_batches most rec batches)
unfolding run_batches
run_batches-kept most rec [] h = h
run_batches-kept most rec (b ∷ bs) h =
    let next = run_batches most (applied rec (pass_update most rec b).patch) bs in
    if_either (IsBounded most) rec.is_done rec next (λ over. h)
      (λ going.
        run_batches-kept most (applied rec (pass_update most rec b).patch) bs
          (pass_update-IsBounded most rec b going h))

-- A batch that carried the cursor to the bound: the end of a full pass over the queue.
abbrev pub ends_pass : Batch → Bool
ends_pass b = b.after == b.upper_bound && not (b.after == b.start)

-- The full passes that the batches make until the queue is finished.
pub passes_made : (max_passes : ℕ) → PassRecord → List Batch → ℕ
passes_made most rec [] = 0
passes_made most rec (b ∷ bs) =
    let rest = passes_made most (applied rec (pass_update most rec b).patch) bs in
    if rec.is_done then 0 else (if ends_pass b then 1 else 0) + rest

-- The record counts the passes, and they are bounded.
abbrev pub Counts : (max_passes made : ℕ) → (rec last : PassRecord) → Type 0
Counts most made rec last = (last.passes ≡ rec.passes + made) × (rec.passes + made ≤ most)

pass_update_counts :
    (most : ℕ) (rec : PassRecord) (b : Batch)
    → (applied rec (pass_update most rec b).patch).passes
      ≡ rec.passes + (if ends_pass b then 1 else 0)
unfolding pass_update applied
pass_update_counts most rec b = ground arith

run_batches-Counts :
    (most : ℕ) (rec : PassRecord) (batches : List Batch)
    → IsBounded most rec
    → Counts most (passes_made most rec batches) rec (run_batches most rec batches)
unfolding run_batches passes_made
run_batches-Counts most rec [] h = (omega arith, omega (arith, h.0))
run_batches-Counts most rec (b ∷ bs) h =
    let after = applied rec (pass_update most rec b).patch in
    let made = (if ends_pass b then 1 else 0) + passes_made most after bs in
    let last = run_batches most after bs in
    let by : (over : Bool) → Type 0 =
      λ over. Counts most (if over then 0 else made) rec (if over then rec else last) in
    elim (Bool-cases rec.is_done) [
      | inl over ↦ subst by (sym over) (omega arith, omega (arith, h.0))
      | inr going ↦
          let rest = run_batches-Counts most after bs (pass_update-IsBounded most rec b going h) in
          let one = pass_update_counts most rec b in
          subst by (sym going) (omega (arith, rest.0, one), omega (arith, rest.1, one))
    ]

-- However many batches are run, the keeper makes at most the configured number of full passes over a queue, each
-- counted as the cursor reaches the bound, together with those that the record had: once they are used up the
-- queue is finished.
pub run_batches-IsBounded :
    (most : ℕ) (rec : PassRecord) (batches : List Batch)
    → IsBounded most rec
    → let last = run_batches most rec batches in
      Counts most (passes_made most rec batches) rec last × IsBounded most last
run_batches-IsBounded most rec batches h =
    (run_batches-Counts most rec batches h, run_batches-kept most rec batches h)
