-- ===== src/Oracle/Debounce.antt =====
-- The debouncer of the oracle keeper (keepers/v3/oracle/decide.mjs: makeDebouncer). A reason is a number; the
-- timer and the call of `fn` are events from outside: the timer fires, and the call ends.
pub mod Served
mod Tests
use solonpad_contracts.Base.{
  Bool, List, Option, [], false, if◌then◌else◌, includes, none, some, true, ℕ, ◌++◌, ◌∷◌,
}

abbrev pub follow_up : ℕ
follow_up = 0

pub record Debouncer : Type 0 where
  pub timer : Bool
  pub running : Bool
  pub again : Bool
  pub reasons : List ℕ

abbrev pub idle : Debouncer
idle = record { timer = false; running = false; again = false; reasons = [] }

-- `reasons.add(why)`
abbrev pub add_reason : ℕ → List ℕ → List ℕ
add_reason why rs = if includes rs why then rs else rs ++ why ∷ []

-- `schedule`
unfoldable pub schedule : ℕ → Debouncer → Debouncer
schedule why d =
    let noted = record d { reasons = add_reason why d.reasons } in
    if d.running then record noted { again = true } else record noted { timer = true }

-- `fire` up to the call of `fn`, with the reasons that it is called with.
unfoldable pub fire : Debouncer → Debouncer × Option (List ℕ)
fire d =
    let off = record d { timer = false } in
    if d.running
    then (record off { again = true }, none)
    else (record off { running = true; reasons = [] }, some d.reasons)

-- The `finally` of `fire`.
unfoldable pub finish_call : Debouncer → Debouncer
unfolding schedule
finish_call d =
    let stopped = record d { running = false; again = false } in
    if d.again then schedule follow_up stopped else stopped

pub data Event : Type 0 where
  trigger : (why : ℕ) → Event
  timer_fires call_ends : Event

-- An event; a timer that is not set does not fire, and a call that is not running does not end.
unfoldable pub on_event : Event → Debouncer → Debouncer
unfolding schedule fire finish_call
on_event (trigger why) d = schedule why d
on_event timer_fires d = if d.timer then (fire d).0 else d
on_event call_ends d = if d.running then finish_call d else d

pub run_events : List Event → Debouncer → Debouncer
run_events [] d = d
run_events (e ∷ es) d = run_events es (on_event e d)
