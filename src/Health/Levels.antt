-- ===== src/Health/Levels.antt =====
-- How bad a reading is (keepers/v3/lib/health.mjs: evaluateHeartbeat, evaluateGas, evaluateFloat, summarize;
-- keepers/v3/lib/balances.mjs: evaluateBalances). A level is its number in `LEVEL`; the texts are left out,
-- and a reading that failed is `none`.
pub mod Worst
mod Tests
use solonpad_contracts.Base.{
  Bool, List, Option, [], if◌then◌else◌, leb, ltb, max, maximum, min, none, some, true, ℕ, ◌+◌,
  ◌==◌, ◌∷◌,
}

abbrev pub fine : ℕ
fine = 0

abbrev pub warn : ℕ
warn = 1

abbrev pub fail : ℕ
fail = 2

-- A written heartbeat: its age, whether the file is unreadable, and the failures in a row where the last
-- tick failed.
pub record Heartbeat : Type 0 where
  pub age_sec : ℕ
  pub corrupt : Bool
  pub failed_ticks : Option ℕ

pub record HeartbeatSpec : Type 0 where
  pub warn_sec : ℕ
  pub fail_sec : ℕ
  pub failures_warn : ℕ
  pub failures_fail : ℕ
  pub is_optional : Bool

abbrev pub age_level : HeartbeatSpec → ℕ → ℕ
age_level spec age =
    if ltb spec.fail_sec age then fail else if ltb spec.warn_sec age then warn else fine

-- A failed tick is at least one failure.
abbrev pub failure_level : HeartbeatSpec → Option ℕ → ℕ
failure_level spec none = fine
failure_level spec (some n) =
    if leb spec.failures_fail (max 1 n)
    then fail
    else if leb spec.failures_warn (max 1 n)
    then warn
    else fine

-- `evaluateHeartbeat`
pub evaluate_heartbeat : HeartbeatSpec → Option Heartbeat → ℕ
evaluate_heartbeat spec none = if spec.is_optional then warn else fail
evaluate_heartbeat spec (some hb) =
    max (max (age_level spec hb.age_sec) (if hb.corrupt then warn else fine))
      (failure_level spec hb.failed_ticks)

-- `capLevel`
abbrev pub cap_level : (level : ℕ) → Option ℕ → ℕ
cap_level level none = level
cap_level level (some most) = min level most

abbrev pub balance_level : (warn_at fail_at balance : ℕ) → ℕ
balance_level warn_at fail_at b =
    if ltb b fail_at then fail else if ltb b warn_at then warn else fine

-- `evaluateGas`
pub evaluate_gas : (warn_wei fail_wei : ℕ) (max_level : Option ℕ) → (balance : Option ℕ) → ℕ
evaluate_gas warn_wei fail_wei most none = cap_level fail most
evaluate_gas warn_wei fail_wei most (some b) = cap_level (balance_level warn_wei fail_wei b) most

-- The readings and limits of `evaluateFloat`, each limit already in the unit of its balance.
pub record Float : Type 0 where
  pub arc_available : Option ℕ
  pub rh_free : Option ℕ
  pub hub_float_on : Option Bool
  pub rh_float_on : Option Bool

pub record FloatLimits : Type 0 where
  pub arc_warn : ℕ
  pub arc_fail : ℕ
  pub rh_warn : ℕ
  pub rh_fail : ℕ

abbrev pub side_level : (warn_at fail_at : ℕ) → Option ℕ → ℕ
side_level warn_at fail_at none = fail
side_level warn_at fail_at (some b) = balance_level warn_at fail_at b

abbrev pub switch_level : Option Bool → ℕ
switch_level none = fail
switch_level (some on) = if on then fine else fail

-- `evaluateFloat`: the levels of its four checks.
pub evaluate_float : Float → FloatLimits → List ℕ
evaluate_float s p =
    side_level p.arc_warn p.arc_fail s.arc_available
    ∷ (side_level p.rh_warn p.rh_fail s.rh_free
        ∷ (switch_level s.hub_float_on ∷ (switch_level s.rh_float_on ∷ [])))

-- `counts`
abbrev pub count_level : (level : ℕ) → List ℕ → ℕ
count_level level [] = 0
count_level level (l ∷ ls) = (if l == level then 1 else 0) + count_level level ls

pub record Summary : Type 0 where
  pub exit_code : ℕ
  pub count_ok : ℕ
  pub count_warn : ℕ
  pub count_fail : ℕ

-- `summarize`
pub summarize : List ℕ → Summary
summarize ls = record {
  exit_code = maximum ls;
  count_ok = count_level fine ls;
  count_warn = count_level warn ls;
  count_fail = count_level fail ls;
}

-- One target of `evaluateBalances`: whether it is low.
pub is_low : (min_wei : ℕ) → (balance : Option ℕ) → Bool
is_low min_wei none = true
is_low min_wei (some b) = ltb b min_wei
