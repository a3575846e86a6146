-- ===== src/Health/Levels/Worst.antt =====
-- The exit code is the worst level, and nothing unreadable passes.
use solonpad_contracts.Base.{
  All, List, Option, [], arith, false, length, max, maximum, min, none, refl, some, ℕ, ◌+◌, ◌<◌,
  ◌↔◌, ◌∷◌, ◌≡◌, ◌≤◌,
}
use solonpad_contracts.Health.Levels.{
  Heartbeat, HeartbeatSpec, count_level, evaluate_gas, evaluate_heartbeat, fail, failure_level,
  fine, summarize,
}

counts_lem :
    (ls : List ℕ)
    → All (λ l. l ≤ 2) ls
    → (count_level 0 ls + count_level 1 ls + count_level 2 ls ≡ length ls)
      × (maximum ls ≤ 2)
      × ((maximum ls ≡ 2) ↔ (0 < count_level 2 ls))
      × ((maximum ls ≡ 0) ↔ (count_level 1 ls + count_level 2 ls ≡ 0))
counts_lem [] h = ground arith
counts_lem (l ∷ ls) (k, ks) = let rest = counts_lem ls ks in ground arith

-- The process exits with 2 exactly when some check failed, and with 0 exactly when none failed or warned;
-- every check is counted once.
pub summarize_lem :
    (levels : List ℕ)
    → All (λ l. l ≤ 2) levels
    → let s = summarize levels in
      (s.count_ok + s.count_warn + s.count_fail ≡ length levels)
      × ((s.exit_code ≡ fail) ↔ (0 < s.count_fail))
      × ((s.exit_code ≡ fine) ↔ (s.count_warn + s.count_fail ≡ 0))
unfolding summarize
summarize_lem levels h =
    let (all, most, failed, passed) = counts_lem levels h in (all, failed, passed)

-- The failures in a row, if the last tick failed, are below both limits.
abbrev pub IsCalm : HeartbeatSpec → Option ℕ → Type 0
IsCalm spec none = Unit
IsCalm spec (some n) = (max 1 n < spec.failures_fail) × (max 1 n < spec.failures_warn)

IsCalm-iff : (spec : HeartbeatSpec) (o : Option ℕ) → (failure_level spec o ≡ fine) ↔ IsCalm spec o
IsCalm-iff spec none = (λ h. tt, λ h. refl)
IsCalm-iff spec (some n) = ground arith

-- A missing heartbeat is never healthy. One that was written is healthy exactly when it is readable, no older
-- than its warning and its failing age, and its failures in a row, if the last tick failed, are below both
-- limits.
pub evaluate_heartbeat-fine :
    (spec : HeartbeatSpec) (b : Heartbeat)
    → (0 < evaluate_heartbeat spec none)
      × ((evaluate_heartbeat spec (some b) ≡ fine) ↔ (
          (b.age_sec ≤ spec.warn_sec)
          × (b.age_sec ≤ spec.fail_sec)
          × (b.corrupt ≡ false)
          × IsCalm spec b.failed_ticks))
unfolding evaluate_heartbeat
evaluate_heartbeat-fine spec b = let calm = IsCalm-iff spec b.failed_ticks in ground arith

-- A balance that cannot be read is the worst level its target may have, one below the failing mark too; a
-- balance of at least both marks is fine, and the level never passes the target's own.
pub evaluate_gas_lem :
    (warn_wei fail_wei most b : ℕ)
    → (evaluate_gas warn_wei fail_wei (some most) none ≡ min fail most)
      × (b < fail_wei → evaluate_gas warn_wei fail_wei (some most) (some b) ≡ min fail most)
      × (warn_wei ≤ b → fail_wei ≤ b → evaluate_gas warn_wei fail_wei none (some b) ≡ fine)
      × (evaluate_gas warn_wei fail_wei (some most) (some b) ≤ most)
      × (evaluate_gas warn_wei fail_wei (some most) (some b)
          ≤ evaluate_gas warn_wei fail_wei none (some b))
unfolding evaluate_gas
evaluate_gas_lem warn_wei fail_wei most b = ground arith
