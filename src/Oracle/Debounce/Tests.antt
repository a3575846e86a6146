-- ===== src/Oracle/Debounce/Tests.antt =====
-- A trigger during a running call.
use solonpad_contracts.Base.{List, [], arith, includes, refl, true, ◌∷◌, ◌≡◌, ◌⊎◌}
use solonpad_contracts.Oracle.Debounce.{
  Event, call_ends, finish_call, fire, idle, on_event, run_events, schedule, timer_fires, trigger,
}
use solonpad_contracts.Oracle.Debounce.Served.{IsServed, is_told, run_events-IsServed}

abbrev events : List Event
events = trigger 7 ∷ (timer_fires ∷ (trigger 8 ∷ (call_ends ∷ [])))

idle-IsServed : IsServed idle
idle-IsServed = ground arith

run_events-IsServed_example :
    let asked = on_event (trigger 6) idle in
    let last = run_events events asked in
    ((is_told 6 events asked ≡ true) ⊎ (includes last.reasons 6 ≡ true)) × IsServed last
run_events-IsServed_example = run_events-IsServed 6 events idle idle-IsServed

-- The follow-up is on the timer.
events_run : (run_events events idle).timer ≡ true
unfolding run_events on_event schedule fire finish_call
events_run = refl
