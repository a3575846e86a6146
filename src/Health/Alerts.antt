-- ===== src/Health/Alerts.antt =====
-- Which alerts are sent by a run of the health check, from what the last run stored
-- (keepers/v3/lib/health.mjs: dueAlerts, forgetDelivery). A check is a number.
pub mod Delivered
mod Tests
use solonpad_contracts.Base.{
  Bool, List, Option, [], if◌then◌else◌, leb, none, not, or_else, some, true, ℕ, ◌++◌, ◌+◌, ◌==◌,
  ◌||◌, ◌∷◌,
}
use solonpad_contracts.Base.Dict.{Dict, erase, insert, lookup}

pub record CheckResult : Type 0 where
  pub check : ℕ
  pub level : ℕ

-- What is stored of a check that was alerted.
pub record Alerted : Type 0 where
  pub level : ℕ
  pub at : ℕ

pub data Notice : Type 0 where
  recovered : (check : ℕ) → Notice
  alert : (check level : ℕ) → Notice

abbrev pub is_due : (level now repeat_ms : ℕ) → Option Alerted → Bool
is_due level now repeat none = true
is_due level now repeat (some prev) = not (prev.level == level) || leb (prev.at + repeat) now

-- What one result sends, and what is stored for it.
abbrev pub notices_of : CheckResult → (now repeat_ms : ℕ) → Option Alerted → List Notice
notices_of r now repeat prev =
    if r.level == 0
    then elim prev [ none ↦ [] | some a ↦ recovered r.check ∷ [] ]
    else if is_due r.level now repeat prev
    then alert r.check r.level ∷ []
    else []

abbrev pub stored_of :
    CheckResult → (now repeat_ms : ℕ) → Option Alerted → Dict Alerted → Dict Alerted
stored_of r now repeat prev next =
    if r.level == 0
    then next
    else insert r.check
        (if is_due r.level now repeat prev
          then record { level = r.level; at = now }
          else or_else prev (record { level = r.level; at = now }))
        next

-- The loop of `dueAlerts`.
pub collect_alerts :
    List CheckResult
    → (state : Dict Alerted) (now repeat_ms : ℕ) → Dict Alerted
    → List Notice × Dict Alerted
collect_alerts [] state now repeat next = ([], next)
collect_alerts (r ∷ rs) state now repeat next =
    let prev = lookup r.check state in
    let (sent, final) = collect_alerts rs state now repeat (stored_of r now repeat prev next) in
    (notices_of r now repeat prev ++ sent, final)

-- `dueAlerts`
pub due_alerts :
    List CheckResult → (state : Dict Alerted) (now repeat_ms : ℕ) → List Notice × Dict Alerted
due_alerts results state now repeat = collect_alerts results state now repeat []

-- `forgetDelivery`
pub forget_delivery : (state prev_state : Dict Alerted) (check : ℕ) → Dict Alerted
forget_delivery state prev_state check = elim (lookup check prev_state) [
  | none ↦ erase check state
  | some a ↦ insert check a state
]
