-- ===== src/Round/Budget/Bounds.antt =====
-- What the amounts of a round guarantee.
use solonpad_contracts.Base.{
  Option, arith, err, inl, inr, none, ok, some, ℕ, ◌%◌, ◌*◌, ◌+◌, ◌-◌, ◌/◌, ◌<◌, ◌^◌, ◌≡◌, ◌≢◌, ◌≤◌,
  ◌⊎◌,
}
use solonpad_contracts.Base.Order.{le-ceil_div}
use solonpad_contracts.Round.Budget.{
  CostBasis, QuoteError, admitted, align_budget18, all, check_adapter_quote, even_round, external,
  min_raw_out, minimum_budget, oracle_floor_raw, pick_cap, plan_round_costs, round_cap, rounds_of,
  usdc_grid,
}

pub align_budget18_lem :
    (t : ℕ)
    → (align_budget18 t ≤ t)
      × (t < align_budget18 t + usdc_grid)
      × (align_budget18 t % usdc_grid ≡ 0)
unfolding align_budget18
align_budget18_lem t = omega arith

align_up : (t : ℕ) → t ≤ align_budget18 (t + usdc_grid - 1)
unfolding align_budget18
align_up t = omega arith

pick_cap_cases :
    (q m c n e : ℕ)
    → (pick_cap q m c n e ≡ c)
      ⊎ ((pick_cap q m c n e ≡ e)
          × (0 < c)
          × (c < q)
          × (e ≤ c)
          × (m ≤ e)
          × (m + (n - 1) * e ≤ align_budget18 q))
unfolding pick_cap
pick_cap_cases q m c n e = ground arith

-- Whatever the queue and the limits, the cap of a round is a whole number of 6-decimal units and lies
-- within the run limit.
pub round_cap_grid : (q l m : ℕ) → (round_cap q l m % usdc_grid ≡ 0) × (round_cap q l m ≤ l)
unfolding round_cap even_round
round_cap_grid q l m =
    let c = align_budget18 l in
    let n = rounds_of q c in
    ground (
      arith,
      align_budget18_lem l,
      align_budget18_lem ((q + n - 1) / n + usdc_grid - 1),
      pick_cap_cases q m c n (even_round q n),
    )

-- The even round covers the queue in `n` rounds.
even_round-covers : (q n : ℕ) → 0 < n → q ≤ n * even_round q n
unfolding even_round
even_round-covers q n h = grind (arith, le-ceil_div q n h, align_up ((q + n - 1) / n))

rounds_of_bounds : (q c : ℕ) → 0 < c → c < q → (2 ≤ rounds_of q c) × ((rounds_of q c - 1) * c < q)
unfolding rounds_of
rounds_of_bounds q c hc hq = (grind (arith, le-ceil_div q c hc), grind arith)

half_round_at : (c e k q : ℕ) → (k + 1) * c < q → q ≤ (k + 2) * e → c < 2 * e
half_round_at c e k q a b = grind arith

half_round : (c e n q : ℕ) → 2 ≤ n → (n - 1) * c < q → q ≤ n * e → c < 2 * e
half_round c e n q h a b = half_round_at c e (n - 2) q (rw (sub_two n h) at a) (rw (sub_back n h) b)
  where
    sub_two : (n : ℕ) → 2 ≤ n → n - 1 ≡ n - 2 + 1
    sub_two n h = omega arith

    sub_back : (n : ℕ) → 2 ≤ n → n - 2 + 2 ≡ n
    sub_back n h = omega arith

-- Where the cap of a round differs from the plain cut at the run limit, the queue is longer than one
-- cut and is covered by the counted number of such rounds, each worth at least the round minimum, the
-- last one on the grid included, and more than half of the cut.
pub round_cap_even :
    (q l m : ℕ)
    → round_cap q l m ≢ align_budget18 l
    → (align_budget18 l < q)
      × (q ≤ rounds_of q (align_budget18 l) * round_cap q l m)
      × (m ≤ round_cap q l m)
      × (m + (rounds_of q (align_budget18 l) - 1) * round_cap q l m ≤ align_budget18 q)
      × (align_budget18 l < 2 * round_cap q l m)
unfolding round_cap
round_cap_even q l m h =
    let c = align_budget18 l in
    let n = rounds_of q c in
    elim (pick_cap_cases q m c n (even_round q n)) [
      | inl same ↦ absurd (h same)
      | inr (p, pos_cap, long, fits, enough, last) ↦
          let (two, under) = rounds_of_bounds q c pos_cap long in
          let covers = even_round-covers q n (omega arith) in
          rw p (long, covers, enough, last, half_round c (even_round q n) n q two under covers)
    ]

-- A minimum output that is returned is positive and never under the adapter's oracle floor: what the
-- adapter compares, `minRaw * 10_000 < rawFor * 9_900`, is false.
pub min_raw_out_floor :
    (b p d s : ℕ) (f : Option ℕ) {r : ℕ}
    → min_raw_out b p d s f ≡ ok r
    → (0 < r) × (0 < p) × (elim f [ none ↦ b * 10 ^ d / p | some x ↦ x ] * 9_900 ≤ r * 10_000)
unfolding min_raw_out oracle_floor_raw
min_raw_out_floor b p d s f h = ground arith

-- It fails only for a zero price or where the floor itself rounds to zero.
pub min_raw_out_fails :
    (b p d s x : ℕ) {e : QuoteError} → min_raw_out b p d s (some x) ≡ err e → (p ≡ 0) ⊎ (x ≡ 0)
unfolding min_raw_out oracle_floor_raw
min_raw_out_fails b p d s x h = ground arith

-- The fees that the adapter forwards to the hub cover the hub's own fee, the Relay fee and the buffered
-- LayerZero fee exactly, and the signed cost is what leaves the protocol, with the hub fee only under
-- the basis `all`; the buffer never lowers the LayerZero fee.
pub plan_round_costs_covers :
    (b relay lz bps buffer extra : ℕ) (basis : CostBasis)
    → let c = plan_round_costs b relay lz bps buffer extra basis in
      (c.fees18 ≡ c.hub_fee18 + c.relay_fee18 + c.lz_fee18)
      × (lz ≤ c.lz_fee18)
      × (c.fixed_cost18 + elim basis [ external ↦ c.hub_fee18 | all ↦ 0 ] ≡ c.fees18 + extra)
unfolding plan_round_costs
plan_round_costs_covers b relay lz bps buffer extra external = ground arith
plan_round_costs_covers b relay lz bps buffer extra all = ground arith

-- A budget of at least the round minimum of a cost, within the run limit, passes the adapter's checks
-- for that cost.
pub minimum_budget-adapter :
    (total cost l : ℕ)
    → minimum_budget cost ≤ total
    → total ≤ l
    → check_adapter_quote total cost l ≡ admitted
unfolding minimum_budget check_adapter_quote
minimum_budget-adapter total cost l a b = ground arith
