-- ===== src/Launcher/Planning/Afforded.antt =====
-- What a planned launch may cost.
use solonpad_contracts.Relay.Fees.Covered.{plan_route_fee_within}
use solonpad_contracts.Base.{Option, arith, none, refl, some, ℕ, ◌%◌, ◌*◌, ◌+◌, ◌-◌, ◌/◌, ◌≡◌, ◌≤◌}
use solonpad_contracts.Relay.Fees.{
  Route, plan_route_fee, route_costly, route_missing, route_unsettled, routed,
}
use solonpad_contracts.Launcher.Planning.{
  OrderView, Params, Quoted, fee_of, keep_of, max_fee_of, plan_launch, planned, scale, short_bps_of,
  with_fee,
}

div_mul-le : (a d : ℕ) → a / d * d ≤ a
div_mul-le a d = grind arith

max_fee_of-le :
    (p : Params) (lz_fee extra : ℕ) → max_fee_of p lz_fee extra ≤ extra - keep_of p lz_fee
max_fee_of-le p lz_fee extra = div_mul-le (extra - keep_of p lz_fee) scale

with_fee_lem :
    (quote : ℕ → Quoted) (p : Params) (o : OrderView) (c : Option ℕ) (fee : ℕ) (q : Quoted)
    (short : ℕ)
    → with_fee quote p o c ≡ planned fee q short
    → (c ≡ some fee)
      × ((o.amount_in + fee) % scale ≡ 0)
      × (q ≡ quote (o.amount_in + fee))
      × (short_bps_of (o.amount_in / scale) q.expected_out ≤ p.max_shortfall_bps)
with_fee_lem quote p o none fee q short h = ground arith
with_fee_lem quote p o (some c) fee q short h = ground arith

fee_of_within :
    (quote : ℕ → ℕ) (amount_in need most : ℕ) (r : Route) (fee : ℕ)
    → plan_route_fee quote amount_in need scale (some most) 4 ≡ r
    → fee_of most r ≡ some fee
    → fee ≤ most
fee_of_within quote amount_in need most (routed f expected) fee h e =
    let within = plan_route_fee_within quote amount_in need scale most 4 f expected h in
    ground arith
fee_of_within quote amount_in need most (route_costly f) fee h e = ground arith
fee_of_within quote amount_in need most (route_missing f) fee h e = ground arith
fee_of_within quote amount_in need most (route_unsettled f) fee h e = ground arith

-- A planned route fee is at most what the order's reserve has above the LayerZero fee and its buffer, 0 where it has
-- nothing above them; the deposit is a whole number of 6-decimal units, and the quote falls short of the principal by
-- at most the configured share.
pub plan_launch_affords :
    (quote : ℕ → Quoted) (p : Params) (lz_fee : ℕ) (o : OrderView) (fee : ℕ) (q : Quoted)
    (short : ℕ)
    → plan_launch quote p lz_fee o ≡ planned fee q short
    → (fee ≤ o.extra - keep_of p lz_fee)
      × ((o.amount_in + fee) % scale ≡ 0)
      × (q ≡ quote (o.amount_in + fee))
      × (short_bps_of (o.amount_in / scale) q.expected_out ≤ p.max_shortfall_bps)
unfolding plan_launch
plan_launch_affords quote p lz_fee o fee q short h =
    let expected : ℕ → ℕ = λ a. (quote a).expected_out in
    let most = max_fee_of p lz_fee o.extra in
    let route = plan_route_fee expected o.amount_in (o.amount_in / scale) scale (some most) 4 in
    let (found, whole, asked, enough) = with_fee_lem quote p o (fee_of most route) fee q short h in
    let within =
      fee_of_within expected o.amount_in (o.amount_in / scale) most route fee refl found in
    (omega (arith, within, max_fee_of-le p lz_fee o.extra), whole, asked, enough)
