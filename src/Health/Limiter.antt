-- ===== src/Health/Limiter.antt =====
-- The alerter's limit on repeats (keepers/v3/lib/alert.mjs: makeAlerter) and the count of failed ticks
-- (keepers/v3/lib/runner.mjs: runLoop). What the delivery comes to is outside the program.
pub mod Spaced
mod Tests
use solonpad_contracts.Base.{
  Bool, List, Option, [], false, if◌then◌else◌, leb, ltb, none, some, true, ℕ, ◌+◌, ◌-◌, ◌∷◌,
}
use solonpad_contracts.Base.Dict.{Dict, insert, lookup}

-- What becomes of an alert.
pub data Sent : Type 0 where
  rate_limited tried : Sent

-- `now() - (last.get(key) ?? -Infinity) < repeatMs`
abbrev pub too_soon : (repeat now : ℕ) → Option ℕ → Bool
too_soon repeat now none = false
too_soon repeat now (some at) = ltb (now - at) repeat

-- `alert`: the time is remembered before the delivery, whatever comes of it.
pub alert : (repeat key now : ℕ) → Dict ℕ → Sent × Dict ℕ
alert repeat key now last =
    let tries = insert key now last in
    if too_soon repeat now (lookup key last) then (rate_limited, last) else (tried, tries)

-- An alert that was raised: its key and its time.
pub record Raised : Type 0 where
  pub key : ℕ
  pub at : ℕ

abbrev is_tried : Sent → Bool
is_tried tried = true
is_tried rate_limited = false

-- The alerts of a process, in order: those that were tried.
pub tried_of : (repeat : ℕ) → List Raised → Dict ℕ → List Raised
tried_of repeat [] last = []
tried_of repeat (r ∷ rs) last =
    let (sent, after) = alert repeat r.key r.at last in
    let rest = tried_of repeat rs after in if is_tried sent then r ∷ rest else rest

-- The failures of `runLoop` behind a tick, and whether it alerts.
pub after_tick : (succeeded : Bool) (failures : ℕ) → ℕ × Bool
after_tick true failures = (0, false)
after_tick false failures = (failures + 1, leb 5 (failures + 1))
