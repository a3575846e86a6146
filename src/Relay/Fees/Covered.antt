-- ===== src/Relay/Fees/Covered.antt =====
-- A planned fee covers what the order must deliver, within the cap and on the grid.
use solonpad_contracts.Base.{
  Bool-cases, Option, arith, false, inl, inr, leb, leb→le, ltb, ltb→lt, none, not_ltb→le, refl,
  some, suc, true, zero, ℕ, ◌%◌, ◌*◌, ◌+◌, ◌-◌, ◌/◌, ◌<◌, ◌==◌, ◌≡◌, ◌≤◌, ◌⊎◌,
}
use solonpad_contracts.Relay.Fees.{
  Funding, Route, above, cost_limit, funded, grid18, no_route, not_converging, on_grid,
  plan_funding_fees, plan_route_fee, rescale, round_up, route_costly, route_missing,
  route_unsettled, routed, try_fees, try_route,
}

on_grid_lem :
    (budget fees : ℕ)
    → ((budget + on_grid budget fees) % grid18 ≡ 0)
      × (fees ≤ on_grid budget fees)
      × (on_grid budget fees < fees + grid18)
unfolding on_grid
on_grid_lem budget fees = (omega arith, omega arith, omega arith)

rescale_grid :
    (budget need6 buffer input min6 : ℕ)
    → (budget + rescale budget need6 buffer input min6) % grid18 ≡ 0
unfolding rescale
rescale_grid budget need6 buffer input min6 =
    let scaled = (need6 * grid18 * input + min6 * grid18 - 1) / (min6 * grid18) in
    let fee = scaled - budget in (on_grid_lem budget (fee + fee * buffer / 10_000 + grid18)).0

-- What is said of a plan.
abbrev pub IsCovered : (quote : ℕ → ℕ) (budget need6 most least : ℕ) → Funding → Type 0
IsCovered quote budget need6 most least (funded fees min_out quoted) =
    (min_out ≡ need6)
    × (quoted ≡ quote (budget + fees))
    × (need6 ≤ quoted)
    × ((budget + fees) % grid18 ≡ 0)
    × ((fees ≤ most) ⊎ (fees ≡ least))
IsCovered quote budget need6 most least (no_route fees) = quote (budget + fees) ≡ 0
IsCovered quote budget need6 most least (cost_limit fees) = most < fees
IsCovered quote budget need6 most least (not_converging fees) = Unit

try_fees-IsCovered :
    (left : ℕ) (quote : ℕ → ℕ) (budget need6 most buffer least fees : ℕ)
    → (budget + fees) % grid18 ≡ 0
    → (fees ≤ most) ⊎ (fees ≡ least)
    → IsCovered quote budget need6 most least (try_fees left quote budget need6 most buffer fees)
unfolding try_fees
try_fees-IsCovered zero quote budget need6 most buffer least fees g w = tt
try_fees-IsCovered (suc left) quote budget need6 most buffer least fees g w =
    let input = budget + fees in
    let next = rescale budget need6 buffer input (quote input) in
    elim (Bool-cases (leb need6 (quote input))) [
      | inl enough ↦ rw enough (refl, refl, leb→le _ _ enough, g, w)
      | inr short ↦ elim (Bool-cases (quote input == 0)) [
        | inl none_out ↦ rw (short, none_out) (ground arith)
        | inr some_out ↦ elim (Bool-cases (ltb most next)) [
          | inl costly ↦ rw (short, some_out, costly) (ltb→lt _ _ costly)
          | inr fine ↦
              let small : next ≤ most = not_ltb→le _ _ fine in
              rw (short, some_out, fine)
                (try_fees-IsCovered left quote budget need6 most buffer least next
                  (rescale_grid budget need6 buffer input (quote input)) (inl small))
        ]
      ]
    ]

-- Whatever the quotes, the funding fees that are accepted are for an input on the 6-decimal grid whose quoted
-- minimum covers the whole budget rounded up, and stay within the cap or are the first try's, less than one
-- grid unit; a deferral for cost is above the cap, one for a missing route had a quote of nothing.
pub plan_funding_fees_covers :
    (quote : ℕ → ℕ) (budget max_bps buffer tries : ℕ)
    → (on_grid budget 0 < grid18)
      × (budget ≤ (budget + grid18 - 1) / grid18 * grid18)
      × IsCovered quote budget
          ((budget + grid18 - 1) / grid18)
          (budget * max_bps / 10_000)
          (on_grid budget 0)
          (plan_funding_fees quote budget max_bps buffer tries)
unfolding plan_funding_fees
plan_funding_fees_covers quote budget max_bps buffer tries =
    let (aligned, above_zero, small) = on_grid_lem budget 0 in
    (
      omega (arith, small),
      omega arith,
      try_fees-IsCovered tries quote budget ((budget + grid18 - 1) / grid18)
          (budget * max_bps / 10_000) buffer (on_grid budget 0) (on_grid budget 0) aligned
          (inr refl),
    )

-- What is said of a route's fee.
abbrev pub IsRouted : (quote : ℕ → ℕ) (amount_in need_out grid : ℕ) → Option ℕ → Route → Type 0
IsRouted quote amount_in need_out grid max_fee (routed fee expected) =
    (expected ≡ quote (amount_in + fee))
    × (need_out ≤ expected)
    × ((k : ℕ) × (fee ≡ k * grid))
    × (above max_fee fee ≡ false)
IsRouted quote amount_in need_out grid max_fee (route_missing fee) = quote (amount_in + fee) ≡ 0
IsRouted quote amount_in need_out grid max_fee (route_costly fee) = above max_fee fee ≡ true
IsRouted quote amount_in need_out grid max_fee (route_unsettled fee) = Unit

try_route-IsRouted :
    (left : ℕ) (quote : ℕ → ℕ) (amount_in need_out grid : ℕ) (max_fee : Option ℕ) (fee : ℕ)
    → (k : ℕ) × (fee ≡ k * grid)
    → above max_fee fee ≡ false
    → IsRouted quote amount_in need_out grid max_fee
        (try_route left quote amount_in need_out grid max_fee fee)
unfolding try_route round_up
try_route-IsRouted zero quote amount_in need_out grid max_fee fee g w = tt
try_route-IsRouted (suc left) quote amount_in need_out grid max_fee fee g w =
    let out = quote (amount_in + fee) in
    let share = (need_out - out) * amount_in / need_out in
    let next = round_up (fee + share + share / 10 + grid) grid in
    elim (Bool-cases (leb need_out out)) [
      | inl enough ↦ rw enough (refl, leb→le _ _ enough, g, w)
      | inr short ↦ elim (Bool-cases (out == 0)) [
        | inl none_out ↦ rw (short, none_out) (ground arith)
        | inr some_out ↦ elim (Bool-cases (above max_fee next)) [
          | inl costly ↦ rw (short, some_out, costly) costly
          | inr fine ↦
              rw (short, some_out, fine)
                (try_route-IsRouted left quote amount_in need_out grid max_fee next
                  ((fee + share + share / 10 + grid + grid - 1) / grid, refl) fine)
        ]
      ]
    ]

-- Whatever the quotes, an accepted route fee is a whole number of grid units within the limit, and the
-- expected output of the amount with the fee covers the need; a deferral for cost is above the limit.
pub plan_route_fee_covers :
    (quote : ℕ → ℕ) (amount_in need_out grid : ℕ) (max_fee : Option ℕ) (tries : ℕ)
    → IsRouted quote amount_in need_out grid max_fee
        (plan_route_fee quote amount_in need_out grid max_fee tries)
unfolding plan_route_fee above
plan_route_fee_covers quote amount_in need_out grid none tries =
    try_route-IsRouted tries quote amount_in need_out grid none 0 (0, omega arith) refl
plan_route_fee_covers quote amount_in need_out grid (some most) tries =
    try_route-IsRouted tries quote amount_in need_out grid (some most) 0 (0, omega arith)
      (ground arith)

try_route_within :
    (left : ℕ) (quote : ℕ → ℕ) (amount_in need grid most fee f expected : ℕ)
    → fee ≤ most
    → try_route left quote amount_in need grid (some most) fee ≡ routed f expected
    → f ≤ most
unfolding try_route above
try_route_within zero quote amount_in need grid most fee f expected within h = ground arith
try_route_within (suc left) quote amount_in need grid most fee f expected within h =
    let out = quote (amount_in + fee) in
    let share = (need - out) * amount_in / need in
    let next = round_up (fee + share + share / 10 + grid) grid in
    elim (Bool-cases (leb need out)) [
      | inl enough ↦ ground arith
      | inr short ↦ elim (Bool-cases (above (some most) next)) [
        | inl costly ↦ ground arith
        | inr fits ↦
            let small : next ≤ most = not_ltb→le _ _ fits in
            ground
              (arith, try_route_within left quote amount_in need grid most next f expected small)
      ]
    ]

-- A route that is found is within its limit.
pub plan_route_fee_within :
    (quote : ℕ → ℕ) (amount_in need grid most tries f expected : ℕ)
    → plan_route_fee quote amount_in need grid (some most) tries ≡ routed f expected
    → f ≤ most
unfolding plan_route_fee
plan_route_fee_within quote amount_in need grid most tries f expected h =
    try_route_within tries quote amount_in need grid most 0 f expected (omega arith) h
