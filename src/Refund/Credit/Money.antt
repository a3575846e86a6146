-- ===== src/Refund/Credit/Money.antt =====
-- What the keeper took out of the hub float for an order against what it gave back.
use solonpad_contracts.Base.{
  Bool, List, Option, [], arith, false, inl, none, refl, some, subst, true, ℕ, ◌+◌, ◌∷◌, ◌≡◌, ◌≢◌,
  ◌≤◌, ◌⊎◌,
}
use solonpad_contracts.Refund.Credit.{
  Call, Readings, Refund, Step, credit, credit_back, credits, finish_pending, finishes, land,
  landed_again, landed_unseen, reported, run_steps, step, untouched, withdraw,
}

-- A call whose key is not signed for again.
abbrev pub IsSingle : Call → Type 0
IsSingle call = call ≢ landed_again

-- A call whose landing the keeper learns of at once, of a key not signed for again.
abbrev pub IsPrompt : Call → Type 0
IsPrompt call = (call ≢ landed_unseen) × IsSingle call

-- The steps of one order that always needs `n` until it needs nothing: from then on it stays closed. None of its
-- keys is signed for again, and its credits and refills are prompt.
abbrev pub IsRun : (n : ℕ) (closed : Bool) → List Step → Type 0
IsRun n closed [] = Unit
IsRun n closed (credits e need used ∷ ss) =
    (closed ≡ false) × (need ≡ n) × IsSingle e.withdrawal × IsPrompt e.payment × IsRun n closed ss
IsRun n closed (finishes true call ∷ ss) = (closed ≡ false) × IsRun n closed ss
IsRun n closed (finishes false call ∷ ss) = IsPrompt call × IsRun n true ss

abbrev pub amount : Option ℕ → ℕ
amount none = 0
amount (some n) = n

-- The order's records and its three transactions agree.
abbrev pub IsKept : (n : ℕ) (closed : Bool) → Refund → Type 0
IsKept n closed r =
    ((r.out ≡ none) ⊎ (r.out ≡ some n))
    × (((r.withdrawn ≡ none)
          × (r.credited ≡ none)
          × (r.refilled ≡ none)
          × (r.is_done ≡ false)
          × (r.returned ≡ false))
        ⊎ ((r.withdrawn ≡ some n)
            × (r.out ≡ some n)
            × (((r.credited ≡ none)
                  × (r.is_done ≡ false)
                  × (r.refilled ≡ none)
                  × (r.returned ≡ false))
                ⊎ (((r.credited ≡ some n)
                      × (r.is_done ≡ true)
                      × (r.refilled ≡ none)
                      × (r.returned ≡ false))
                    ⊎ ((r.credited ≡ none)
                        × (r.is_done ≡ false)
                        × (r.refilled ≡ some n)
                        × (r.returned ≡ true)
                        × (closed ≡ true))))))

finish-IsKept :
    (n : ℕ) (closed : Bool) (call : Call) (r : Refund)
    → IsPrompt call
    → IsKept n closed r
    → IsKept n true (finish_pending false call r)
unfolding finish_pending land
finish-IsKept n closed call r p h = ground arith

wait-IsKept :
    (n : ℕ) (call : Call) (r : Refund)
    → IsKept n false r
    → IsKept n false (finish_pending true call r)
unfolding finish_pending land
wait-IsKept n call r h = ground arith

credit-IsKept :
    (n : ℕ) (e : Readings) (used : ℕ) (r : Refund)
    → IsSingle e.withdrawal
    → IsPrompt e.payment
    → IsKept n false r
    → IsKept n false (credit e n used r).0
unfolding credit withdraw credit_back land
credit-IsKept n e used r single p h = ground arith

run-IsKept :
    (n : ℕ) (closed : Bool) (steps : List Step) (r : Refund)
    → IsRun n closed steps
    → IsKept n closed r
    → (final : Bool) × IsKept n final (run_steps steps r)
unfolding run_steps step
run-IsKept n closed [] r run h = (closed, h)
run-IsKept n closed (credits e need used ∷ ss) r (going, same, single, prompt, rest) h =
    let now : IsKept n false r = subst (λ c. IsKept n c r) going h in
    let next = credit-IsKept n e used r single prompt now in
    let moved : IsKept n closed (credit e need used r).0 = rw (going, same) next in
    run-IsKept n closed ss (credit e need used r).0 rest moved
run-IsKept n closed (finishes true call ∷ ss) r (going, rest) h =
    let now : IsKept n false r = subst (λ c. IsKept n c r) going h in
    let moved : IsKept n closed (finish_pending true call r) =
      rw going (wait-IsKept n call r now) in
    run-IsKept n closed ss (finish_pending true call r) rest moved
run-IsKept n closed (finishes false call ∷ ss) r (prompt, rest) h =
    run-IsKept n true ss (finish_pending false call r) rest (finish-IsKept n closed call r prompt h)

kept_balance :
    (n : ℕ) (closed : Bool) (r : Refund)
    → IsKept n closed r
    → (amount r.credited + amount r.refilled ≤ amount r.out)
      × (amount r.out ≤ n)
      × (r.is_done ≡ true → (amount r.credited ≡ n) × (amount r.out ≡ n))
      × (r.returned ≡ true → (amount r.refilled ≡ n) × (amount r.out ≡ n))
kept_balance n closed r h = ground arith

-- Over any number of ticks, for an order that needs the same amount until it needs nothing, none of whose keys is
-- signed for again, and whose credits and refills are confirmed in the call in which they land, never more than
-- that amount is withdrawn; never more is given back than was taken out; and once the record says it was credited or
-- returned, exactly the amount taken out was.
pub refund_conserves :
    (n : ℕ) (steps : List Step)
    → IsRun n false steps
    → let r = run_steps steps untouched in
      (amount r.credited + amount r.refilled ≤ amount r.out)
      × (amount r.out ≤ n)
      × (r.is_done ≡ true → (amount r.credited ≡ n) × (amount r.out ≡ n))
      × (r.returned ≡ true → (amount r.refilled ≡ n) × (amount r.out ≡ n))
refund_conserves n steps run =
    let (closed, kept) =
      run-IsKept n false steps untouched run (inl refl, inl (refl, refl, refl, refl, refl)) in
    kept_balance n closed (run_steps steps untouched) kept

-- A withdrawal whose task was not broadcast before goes out only within the day's limit and the hub's free
-- float; whenever the day's total grows, it grows by exactly the amount recorded.
pub credit_limits :
    (e : Readings) (need used : ℕ) (r : Refund)
    → r.withdrawn ≡ none
    → let (next, total) = credit e need used r in
      (e.resuming ≡ false → next.out ≢ r.out → (used + need ≤ e.day_limit) × (need ≤ e.available))
      × (e.resuming ≡ false → used ≤ e.day_limit → total ≤ e.day_limit)
      × (((total ≡ used) × (next.withdrawn ≡ none))
          ⊎ ((total ≡ used + need) × (next.withdrawn ≡ some need)))
unfolding credit withdraw credit_back land
credit_limits e need used r fresh = ground arith

-- A credit that landed after its wait timed out is not recorded; when the order then needs nothing, the
-- keeper refills the hub float as well: one withdrawal is given back twice.
pub late_credit-refilled :
    (n : ℕ) (r : Refund)
    → r.withdrawn ≡ some n
    → r.out ≡ some n
    → r.credited ≡ none
    → r.is_done ≡ false
    → r.returned ≡ false
    → r.refilled ≡ none
    → let late = credit_back landed_unseen n r in
      let final = finish_pending false reported late in
      amount final.credited + amount final.refilled ≡ amount final.out + n
unfolding credit_back land finish_pending
late_credit-refilled n r w o c d t f = ground arith

-- A withdrawal that landed for one amount and is resumed while the order needs another is recorded for the
-- other amount, which is also what is credited.
pub resumed_amount :
    (e : Readings) (taken need used : ℕ) (r : Refund)
    → r.withdrawn ≡ none
    → r.out ≡ some taken
    → r.credited ≡ none
    → e.resuming ≡ true
    → e.withdrawal ≡ reported
    → e.payment ≡ reported
    → let next = (credit e need used r).0 in
      (next.out ≡ some taken) × (next.withdrawn ≡ some need) × (next.credited ≡ some need)
unfolding credit withdraw credit_back land
resumed_amount e taken need used r w o c s x y = ground arith
