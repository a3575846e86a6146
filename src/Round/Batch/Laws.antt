-- ===== src/Round/Batch/Laws.antt =====
-- What the batch decisions guarantee.
use solonpad_contracts.Base.{
  Bool, List, Option, [], arith, drop, false, get_elem?, includes, length, length-drop, max, refl,
  some, suc, true, zero, ℕ, ◌+◌, ◌-◌, ◌<◌, ◌==◌, ◌↔◌, ◌∷◌, ◌≡◌, ◌≢◌, ◌≤◌, ◌⊎◌,
}
use solonpad_contracts.Round.Budget.{admitted, check_adapter_quote, minimum_budget}
use solonpad_contracts.Round.Budget.Bounds.{minimum_budget-adapter}
use solonpad_contracts.Round.Batch.{
  BatchPreview, Defer, EpochView, advance_watermark, count_skippable, defer, entries_hash_from,
  execute, final_prefix, is_sealable, max_batch_entries, plan_batch, seal_loop, sealable_epochs,
  should_advance,
}

seal_loop_sound :
    (v : ℕ → Option EpochView) (n from e : ℕ)
    → includes (seal_loop v n from) e ≡ true
    → (from ≤ e) × (e < from + n) × (is_sealable (v e) ≡ true)
unfolding seal_loop
seal_loop_sound v zero from e h = cc
seal_loop_sound v (suc n) from e h = ground (arith, seal_loop_sound v n (from + 1) e)

seal_loop_complete :
    (v : ℕ → Option EpochView) (n from e : ℕ)
    → from ≤ e
    → e < from + n
    → is_sealable (v e) ≡ true
    → includes (seal_loop v n from) e ≡ true
unfolding seal_loop
seal_loop_complete v zero from e a b h = absurd (omega arith)
seal_loop_complete v (suc n) from e a b h = ground (arith, seal_loop_complete v n (from + 1) e)

pub sealable_open :
    (v : EpochView)
    → is_sealable (some v) ≡ true
    → (v.is_sealed ≡ false) × ((v.budget == 0) ≡ false)
unfolding is_sealable
sealable_open v h = ground arith

-- An epoch is listed exactly when it is over, neither before the first epoch nor older than the
-- lookback, and its view is unsealed, has a budget and may start its next round.
pub sealable_epochs_iff :
    (today first lookback : ℕ) (v : ℕ → Option EpochView) (e : ℕ)
    → (includes (sealable_epochs today (some first) lookback v) e ≡ true)
      ↔ ((first ≤ e) × (today ≤ e + lookback) × (e < today) × (is_sealable (v e) ≡ true))
unfolding sealable_epochs
sealable_epochs_iff today first lookback v e =
    let from = max first (today - lookback) in
    (
      λ h.
          let (low, high, good) = seal_loop_sound v (today - from) from e h in
          (omega arith, omega arith, omega arith, good),
      λ (low, old, over, good).
          seal_loop_complete v (today - from) from e (omega arith) (omega arith) good,
    )

le-final_prefix : (p : ℕ → Bool) (n e next : ℕ) → next ≤ final_prefix p n e next
unfolding final_prefix
le-final_prefix p zero e next = omega arith
le-final_prefix p (suc n) e next = ground (arith, le-final_prefix p n (e + 1) (e + 1))

final_prefix_at :
    (p : ℕ → Bool) (n e next k : ℕ) → next ≤ k → k < final_prefix p n e next → p k ≡ true
unfolding final_prefix
final_prefix_at p zero e next k a b = absurd (omega arith)
final_prefix_at p (suc n) e next k a b =
    ground (arith, final_prefix_at p n (e + 1) (e + 1) k, le-final_prefix p n (e + 1) (e + 1))

-- The watermark never falls, and every epoch that it newly covers, from the first scanned one on, is final.
pub advance_watermark_final :
    (w from today k : ℕ) (p : ℕ → Bool)
    → (w ≤ advance_watermark w from today p)
      × (w ≤ k → from ≤ k → k < advance_watermark w from today p → p k ≡ true)
unfolding advance_watermark
advance_watermark_final w from today k p =
    let at = final_prefix_at p (today - from) from (max w from) k in
    (ground arith, λ a b c. ground (arith, at))

-- A batch that is executed passes the adapter's own checks for the fixed cost that its minimum was
-- computed from; it has as many ids as budgets, at least one and at most the batch limit, and is
-- started below the limit of active rounds with the market open.
pub plan_batch-adapter :
    (b : BatchPreview) (cost : ℕ) {ids budgets : List ℕ} {total : ℕ}
    → b.minimum ≡ minimum_budget cost
    → plan_batch b ≡ execute ids budgets total
    → (check_adapter_quote total cost b.run_limit ≡ admitted)
      × (length ids ≡ length budgets)
      × (0 < length ids)
      × (length ids ≤ max_batch_entries)
      × (b.active_rounds < b.max_active_rounds)
      × (b.market_open ≡ true)
unfolding plan_batch
plan_batch-adapter b cost {ids} {budgets} {total} m h =
    ground (arith, minimum_budget-adapter total cost b.run_limit)

-- Every deferral names a rule that the contract or the keeper would break: the first one that fails.
pub plan_batch-defer :
    (b : BatchPreview) {d : Defer}
    → plan_batch b ≡ defer d
    → (b.max_active_rounds ≤ b.active_rounds)
      ⊎ (length b.ids ≡ 0)
      ⊎ (max_batch_entries < length b.ids)
      ⊎ (length b.ids ≢ length b.budgets)
      ⊎ (b.run_limit < b.minimum)
      ⊎ (b.total < b.minimum)
      ⊎ (b.run_limit < b.total)
      ⊎ (b.market_open ≡ false)
unfolding plan_batch
plan_batch-defer b h = ground arith

module _ {A : Type 0} (p : A → Bool) where
  le-count_skippable : (xs : List A) (n : ℕ) → n ≤ count_skippable p xs n
  unfolding count_skippable
  le-count_skippable [] n = omega arith
  le-count_skippable (x ∷ xs) n = ground (arith, le-count_skippable xs (n + 1))

  count_skippable-le :
      (xs : List A) (n : ℕ)
      → n ≤ max_batch_entries
      → (count_skippable p xs n ≤ max_batch_entries) × (count_skippable p xs n ≤ n + length xs)
  unfolding count_skippable
  count_skippable-le [] n h = omega arith
  count_skippable-le (x ∷ xs) n h = ground (arith, count_skippable-le xs (n + 1))

  count_skippable_at :
      (xs : List A) (n i : ℕ) {x : A}
      → n + i < count_skippable p xs n
      → get_elem? xs i ≡ some x
      → p x ≡ true
  unfolding count_skippable
  count_skippable_at [] n i h e = cc
  count_skippable_at (y ∷ xs) n zero {x} h e = ground arith
  count_skippable_at (y ∷ xs) n (suc i) {x} h e =
      ground (arith, count_skippable_at xs (n + 1) i {x = x})

  count_skippable_stop :
      (xs : List A) (n i : ℕ) {x : A}
      → n + i ≡ count_skippable p xs n
      → n + i < max_batch_entries
      → get_elem? xs i ≡ some x
      → p x ≡ false
  unfolding count_skippable
  count_skippable_stop [] n i h a e = cc
  count_skippable_stop (y ∷ xs) n zero h a e = ground (arith, le-count_skippable xs (n + 1))
  count_skippable_stop (y ∷ xs) n (suc i) {x} h a e =
      ground (arith, count_skippable_stop xs (n + 1) i {x = x})

  -- A group is advanced by at most one window and by no less than the threshold, only over entries
  -- that may be skipped, and it stops within the window only at an entry that may not.
  pub should_advance_head :
      (ids : List A) (cursor threshold i : ℕ) {x : A}
      → 0 < should_advance ids cursor p threshold
      → get_elem? (drop cursor ids) i ≡ some x
      → let n = should_advance ids cursor p threshold in
        (threshold ≤ n)
        × (n ≤ max_batch_entries)
        × (n ≤ length ids - cursor)
        × (i < n → p x ≡ true)
        × (i ≡ n → i < max_batch_entries → p x ≡ false)
  unfolding should_advance
  should_advance_head ids cursor threshold i {x} pos at = ground (
    arith,
    count_skippable-le (drop cursor ids) 0,
    length-drop cursor ids,
    count_skippable_at (drop cursor ids) 0 i {x = x},
    count_skippable_stop (drop cursor ids) 0 i {x = x},
  )

-- The entries hash over an injective step.
module _ {H Entry : Type 0} (step_hash : H → Entry → ℕ → H)
    (injective : (h h' : H) (e e' : Entry) (a a' : ℕ)
      → step_hash h e a ≡ step_hash h' e' a'
      → (h ≡ h') × (e ≡ e') × (a ≡ a')) where
  -- The entries hash binds the order's entries and amounts: where one step is injective, two orders of
  -- equally many entries with one hash have the same entries and the same amounts.
  pub entries_hash_binds :
      (es es' : List Entry) (xs xs' : List ℕ) (h h' : H) {r : H}
      → length es ≡ length es'
      → length xs ≡ length es
      → length xs' ≡ length es'
      → entries_hash_from step_hash h es xs ≡ some r
      → entries_hash_from step_hash h' es' xs' ≡ some r
      → (h ≡ h') × (es ≡ es') × (xs ≡ xs')
  unfolding entries_hash_from
  entries_hash_binds [] [] [] [] h h' n m m' p q = (cc, refl, refl)
  entries_hash_binds [] [] [] (x ∷ xs') h h' n m m' p q = absurd (omega arith)
  entries_hash_binds [] [] (x ∷ xs) xs' h h' n m m' p q = absurd (omega arith)
  entries_hash_binds [] (e ∷ es') xs xs' h h' n m m' p q = absurd (omega arith)
  entries_hash_binds (e ∷ es) [] xs xs' h h' n m m' p q = absurd (omega arith)
  entries_hash_binds (e ∷ es) (e' ∷ es') [] xs' h h' n m m' p q = absurd (omega arith)
  entries_hash_binds (e ∷ es) (e' ∷ es') (x ∷ xs) [] h h' n m m' p q = absurd (omega arith)
  entries_hash_binds (e ∷ es) (e' ∷ es') (x ∷ xs) (x' ∷ xs') h h' n m m' p q =
      let (same, tail, amounts) =
        entries_hash_binds es es' xs xs' (step_hash h e x) (step_hash h' e' x') (omega arith)
          (omega arith) (omega arith) p q in
      let (before, entry, amount) = injective h h' e e' x x' same in (before, cc, cc)
