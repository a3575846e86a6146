-- ===== src/Oracle/Push/Guards.antt =====
-- What a push never does.
use solonpad_contracts.Base.{
  Bool-cases, List, [], arith, includes, inl, inr, refl, some, subst, true, ℕ, ◌+◌, ◌<◌, ◌∷◌, ◌≡◌,
  ◌≤◌, ◌⊎◌,
}
use solonpad_contracts.Market.{MarketParams, is_open, market_gate, session_state}
use solonpad_contracts.Market.Sessions.{market_gate_iff}
use solonpad_contracts.Oracle.Trigger.{Observation, OracleParams, Reading, read, unreadable}
use solonpad_contracts.Oracle.Push.{
  Situation, decide_push, due_stocks, gate, guard_push, is_readable, judge, market_params, min_gap,
  only_demand, push, readable_stocks, reasons_of,
}

-- The stock stands in the list with that reading.
pub data Listed (u : ℕ) (r : Reading) : List (ℕ × Reading) → Type 0 where
  here : {cs : List (ℕ × Reading)} → Listed u r ((u, r) ∷ cs)
  there : {cs : List (ℕ × Reading)} (c : ℕ × Reading) → Listed u r cs → Listed u r (c ∷ cs)

pub due_within :
    (p : OracleParams) (s : Situation) (cs : List (ℕ × Reading)) (u : ℕ)
    → includes (due_stocks p s cs) u ≡ true
    → includes (readable_stocks p s cs) u ≡ true
unfolding due_stocks readable_stocks reasons_of
due_within p s [] u h = h
due_within p s ((v, r) ∷ cs) u h = ground (arith, due_within p s cs u)

judge-gate :
    (p : OracleParams) (s : Situation) (u : ℕ) (r : Reading)
    → is_readable (judge p s u r) ≡ true
    → (o : Observation) × (updated : ℕ) × (r ≡ read o updated)
      × ((gate p s.ny s.now_sec updated p.market).ok ≡ true)
unfolding judge
judge-gate p s u unreadable h = cc
judge-gate p s u (read o updated) h = (o, updated, refl, ground arith)

readable_stocks-Listed :
    (p : OracleParams) (s : Situation) (cs : List (ℕ × Reading)) (u : ℕ)
    → includes (readable_stocks p s cs) u ≡ true
    → (o : Observation) × (updated : ℕ) × Listed u (read o updated) cs
      × ((gate p s.ny s.now_sec updated p.market).ok ≡ true)
unfolding readable_stocks
readable_stocks-Listed p s [] u h = cc
readable_stocks-Listed p s ((v, r) ∷ cs) u h =
    elim (Bool-cases (includes (readable_stocks p s cs) u)) [
      | inl later ↦
          let (o, updated, l, g) = readable_stocks-Listed p s cs u later in
          (o, updated, there (v, r) l, g)
      | inr not_later ↦
          let (o, updated, e, g) = judge-gate p s v r (ground arith) in
          let same : v ≡ u = ground arith in
          (
            o,
            updated,
            subst (λ w. Listed w (read o updated) ((v, r) ∷ cs)) same
                (subst (λ q. Listed v q ((v, r) ∷ cs)) e here),
            g,
          )
    ]

push_within :
    (p : OracleParams) (s : Situation) {us : List ℕ} (u : ℕ)
    → decide_push p s ≡ push us
    → includes us u ≡ true
    → includes (readable_stocks p s s.current) u ≡ true
unfolding decide_push guard_push
push_within p s u e h = ground (arith, due_within p s s.current u)

-- Whatever the triggers, a demand included, a stock is pushed only on a fresh read, in an open session
-- of the calendar with the operator's holidays, with a feed no older than the heartbeat and its margin.
pub push_market_open :
    (p : OracleParams) (s : Situation) {us : List ℕ} (u : ℕ) {m : MarketParams}
    → p.market ≡ some m
    → decide_push p s ≡ push us
    → includes us u ≡ true
    → (o : Observation) × (updated : ℕ) × Listed u (read o updated) s.current
      × (is_open (session_state (market_params p m) s.ny) ≡ true)
      × (0 < updated)
      × (s.now_sec ≤ updated + m.heartbeat_sec + m.heartbeat_margin_sec)
unfolding gate market_params
push_market_open p s {us} u {m} on e h =
    let (o, updated, l, g) = readable_stocks-Listed p s s.current u (push_within p s u e h) in
    let open_gate : (market_gate (market_params p m) s.ny updated s.now_sec).ok ≡ true =
      ground arith in
    let (a, b, c) = (market_gate_iff (market_params p m) s.ny updated s.now_sec).0.0 open_gate in
    (o, updated, l, a, b, c)

-- A push keeps its distance from the last one, the longer one where only demands ask, and is never sent in a block
-- that the last push was already made in.
pub push_spaced :
    (p : OracleParams) (s : Situation) {us : List ℕ}
    → decide_push p s ≡ push us
    → ((s.last_push_at ≡ 0) ⊎ (s.last_push_at + min_gap p (only_demand p s s.current) ≤ s.now_sec))
      × ((b : ℕ) → s.l1_block ≡ some b → (s.last_l1_block ≡ 0) ⊎ (s.last_l1_block < b))
unfolding decide_push guard_push
push_spaced p s {us} e = (ground arith, λ b eb. ground arith)
