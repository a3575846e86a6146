-- ===== src/Refund/Credit/Tests.antt =====
-- A refund that is credited, and one whose credit lands late.
use solonpad_contracts.Base.{
  Bool, List, [], false, none, refl, some, true, ◌+◌, ◌∷◌, ◌≡◌, ◌≢◌, ◌≤◌, ◌⊎◌,
}
use solonpad_contracts.Refund.Credit.{
  Call, Readings, Refund, Step, credit, credit_back, credits, finish_pending, land, landed_unseen,
  reported, run_steps, step, unsent, untouched, withdraw,
}
use solonpad_contracts.Refund.Credit.Money.{
  IsRun, amount, credit_limits, late_credit-refilled, refund_conserves, resumed_amount,
}

abbrev reads : (resuming : Bool) → (withdrawal payment : Call) → Readings
reads resuming w p = record {
  resuming = resuming;
  day_limit = 1_000;
  available = 500;
  withdrawal = w;
  payment = p;
}

abbrev steps : List Step
steps =
    credits (reads false landed_unseen unsent) 40 0
    ∷ (credits (reads true reported reported) 40 0 ∷ [])

steps-IsRun : IsRun 40 false steps
steps-IsRun = (refl, refl, cc, (cc, cc), (refl, refl, cc, (cc, cc), tt))

refund_conserves_example :
    let r = run_steps steps untouched in
    (amount r.credited + amount r.refilled ≤ amount r.out)
    × (amount r.out ≤ 40)
    × (r.is_done ≡ true → (amount r.credited ≡ 40) × (amount r.out ≡ 40))
    × (r.returned ≡ true → (amount r.refilled ≡ 40) × (amount r.out ≡ 40))
refund_conserves_example = refund_conserves 40 steps steps-IsRun

steps_run : (run_steps steps untouched).credited ≡ some 40
unfolding run_steps step credit withdraw credit_back land
steps_run = refl

credit_limits_example :
    let next = (credit (reads false reported reported) 40 990 untouched).0 in
    let total = (credit (reads false reported reported) 40 990 untouched).1 in
    (false ≡ false → next.out ≢ none → (990 + 40 ≤ 1_000) × (40 ≤ 500))
    × (false ≡ false → 990 ≤ 1_000 → total ≤ 1_000)
    × (((total ≡ 990) × (next.withdrawn ≡ none))
        ⊎ ((total ≡ 990 + 40) × (next.withdrawn ≡ some 40)))
credit_limits_example = credit_limits (reads false reported reported) 40 990 untouched refl

abbrev taken_out : Refund
taken_out = record untouched { withdrawn = some 40; out = some 40 }

late_credit-refilled_example :
    let final = finish_pending false reported (credit_back landed_unseen 40 taken_out) in
    amount final.credited + amount final.refilled ≡ amount final.out + 40
late_credit-refilled_example = late_credit-refilled 40 taken_out refl refl refl refl refl refl

abbrev unseen_out : Refund
unseen_out = record untouched { out = some 40 }

resumed_amount_example :
    let next = (credit (reads true reported reported) 25 0 unseen_out).0 in
    (next.out ≡ some 40) × (next.withdrawn ≡ some 25) × (next.credited ≡ some 25)
resumed_amount_example =
    resumed_amount (reads true reported reported) 40 25 0 unseen_out refl refl refl refl refl refl
