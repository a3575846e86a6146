-- ===== src/Oracle/Push/Due.antt =====
-- What a push never forgets.
use native.Mathlib.Nat.{pow-suc}
use solonpad_contracts.Base.{
  Bool, List, [], arith, if◌then◌else◌, includes, inl, inr, lt→ltb, min, some, suc, true, ℕ, ◌*◌,
  ◌+◌, ◌<◌, ◌∷◌, ◌≡◌, ◌≢◌, ◌≤◌, ◌⊎◌,
}
use solonpad_contracts.Base.Dict.{lookup}
use solonpad_contracts.Oracle.Trigger.{
  LastPush, Observation, OracleParams, Reading, moved_bps, push_triggers, read,
}
use solonpad_contracts.Oracle.Push.{
  Situation, backoff_ms, decide_push, due_stocks, gate, guard_push, judge, min_gap, min_interval,
  only_demand, push, readable_stocks, reasons_of, same_block,
}
use solonpad_contracts.Oracle.Push.Guards.{Listed, due_within, here, there}

-- Every stock that is due is pushed, alone or with all the readable ones.
pub push_covers_due :
    (p : OracleParams) (s : Situation) {us : List ℕ} (u : ℕ)
    → decide_push p s ≡ push us
    → includes (due_stocks p s s.current) u ≡ true
    → includes us u ≡ true
unfolding decide_push guard_push
push_covers_due p s u e h = ground (arith, due_within p s s.current u)

due_stocks-Listed :
    (p : OracleParams) (s : Situation) {u : ℕ} {r : Reading} {cs : List (ℕ × Reading)}
    → Listed u r cs
    → reasons_of (judge p s u r) ≢ []
    → includes (due_stocks p s cs) u ≡ true
unfolding due_stocks
due_stocks-Listed p s {u} {r} (here) h = ground arith
due_stocks-Listed p s {u} {r} (there (v, q) l) h = ground (arith, due_stocks-Listed p s l h)

guard_push_cases :
    (p : OracleParams) (s : Situation) (due readable : List ℕ) (only : Bool) (u : ℕ)
    → includes due u ≡ true
    → (guard_push p s due readable only ≡ min_interval (s.last_push_at + min_gap p only))
      ⊎ (guard_push p s due readable only ≡ same_block (s.last_l1_block + 1))
      ⊎ (guard_push p s due readable only ≡ push (if p.batch_all then readable else due))
unfolding guard_push
guard_push_cases p s [] readable only u h = cc
guard_push_cases p s (v ∷ due) readable only u h = ground arith

moved_has_reason :
    (p : OracleParams) (s : Situation) (u : ℕ) (o : Observation) (updated : ℕ) {l : LastPush}
    → lookup u s.last ≡ some l
    → (gate p s.ny s.now_sec updated p.market).ok ≡ true
    → 0 < l.seen.price18
    → moved_bps o.price18 l.seen.price18 p.deviation_bps ≡ true
    → reasons_of (judge p s u (read o updated)) ≢ []
unfolding judge reasons_of push_triggers
moved_has_reason p s u o updated k g pos moved = ground arith

-- The price rose or fell by more than the deviation, in ten-thousandths of the price last pushed.
abbrev pub HasMoved : OracleParams → Observation → LastPush → Type 0
HasMoved p o l =
    let limit = l.seen.price18 * p.deviation_bps in
    (l.seen.price18 * 10_000 + limit < o.price18 * 10_000)
    ⊎ (o.price18 * 10_000 + limit < l.seen.price18 * 10_000)

moved_bps-HasMoved :
    (p : OracleParams) (o : Observation) (l : LastPush)
    → HasMoved p o l
    → moved_bps o.price18 l.seen.price18 p.deviation_bps ≡ true
unfolding moved_bps
moved_bps-HasMoved p o l (inl rose) = lt→ltb _ _ (omega (arith, rose))
moved_bps-HasMoved p o l (inr fell) = lt→ltb _ _ (omega (arith, fell))

-- A stock that is read behind an open gate, and whose price rose or fell by more than the deviation since its
-- last push, is due: the keeper pushes it or waits for the interval or the next block, and never finds
-- that nothing is due.
pub moved_is_pushed :
    (p : OracleParams) (s : Situation) (u : ℕ) {o : Observation} {updated : ℕ} {l : LastPush}
    → Listed u (read o updated) s.current
    → (gate p s.ny s.now_sec updated p.market).ok ≡ true
    → lookup u s.last ≡ some l
    → 0 < l.seen.price18
    → HasMoved p o l
    → (decide_push p s ≡ min_interval (s.last_push_at + min_gap p (only_demand p s s.current)))
      ⊎ (decide_push p s ≡ same_block (s.last_l1_block + 1))
      ⊎ ((us : List ℕ) × (decide_push p s ≡ push us) × (includes us u ≡ true))
unfolding decide_push
moved_is_pushed p s u {o} {updated} {l} at g k pos moved =
    let over = moved_bps-HasMoved p o l moved in
    let is_due = due_stocks-Listed p s at (moved_has_reason p s u o updated k g pos over) in
    let due = due_stocks p s s.current in
    let readable = readable_stocks p s s.current in
    elim (guard_push_cases p s due readable (only_demand p s s.current) u is_due) [
      | inl waits ↦ inl waits
      | inr (inl blocked) ↦ inr (inl blocked)
      | inr (inr pushed) ↦ inr (inr (_, pushed, push_covers_due p s u pushed is_due))
    ]

-- The reconnect delay starts at the base, never exceeds the cap and doubles until it meets it.
pub backoff_ms_bounds :
    (n base cap : ℕ)
    → (backoff_ms n base cap ≤ cap)
      × (backoff_ms (suc n) base cap ≡ min cap (2 * backoff_ms n base cap))
unfolding backoff_ms
backoff_ms_bounds n base cap = (omega arith, rw pow-suc (omega arith))
