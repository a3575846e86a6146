-- ===== src/Oracle/Debounce/Served.antt =====
-- No trigger is lost.
use solonpad_contracts.Base.{
  Bool, List, Option, [], arith, false, if_lem, if◌then◌else◌, includes, inl, inr, none, some, true,
  ℕ, ◌++◌, ◌||◌, ◌∷◌, ◌≡◌, ◌⊎◌,
}
use solonpad_contracts.Oracle.Debounce.{
  Debouncer, Event, add_reason, call_ends, finish_call, fire, follow_up, on_event, run_events,
  schedule, timer_fires, trigger,
}

-- Whatever has a reason is waited for: by the timer, or by the running call, which is followed by another.
pub record IsServed (d : Debouncer) : Type 0 where
  pub waited : (d.reasons ≡ []) ⊎ ((d.timer ≡ true) ⊎ ((d.running ≡ true) × (d.again ≡ true)))
  pub only_running : (d.again ≡ false) ⊎ (d.running ≡ true)

event-IsServed : (e : Event) (d : Debouncer) → IsServed d → IsServed (on_event e d)
unfolding on_event
event-IsServed (trigger why) d h = ground arith
event-IsServed timer_fires d h = ground arith
event-IsServed call_ends d h = ground arith

run_events-Serves :
    (events : List Event) (d : Debouncer) → IsServed d → IsServed (run_events events d)
unfolding run_events
run_events-Serves [] d h = h
run_events-Serves (e ∷ es) d h = run_events-Serves es (on_event e d) (event-IsServed e d h)

-- The reasons that a call of `fn` gets in an event, if it is called.
abbrev pub called : Event → Debouncer → Option (List ℕ)
called timer_fires d = if d.timer then (fire d).1 else none
called (trigger why) d = none
called call_ends d = none

abbrev tells : (why : ℕ) → Option (List ℕ) → Bool
tells why none = false
tells why (some reasons) = includes reasons why

-- Some call of `fn` over the events gets the reason.
pub is_told : (why : ℕ) → List Event → Debouncer → Bool
is_told why [] d = false
is_told why (e ∷ es) d = tells why (called e d) || is_told why es (on_event e d)

includes-snoc :
    (v why : ℕ) (rs : List ℕ) → includes rs v ≡ true → includes (rs ++ why ∷ []) v ≡ true
includes-snoc v why [] h = ground arith
includes-snoc v why (x ∷ xs) h = ground (arith, includes-snoc v why xs)

snoc_self : (why : ℕ) (rs : List ℕ) → includes (rs ++ why ∷ []) why ≡ true
snoc_self why [] = ground arith
snoc_self why (x ∷ xs) = ground (arith, snoc_self why xs)

includes-add_reason :
    (v why : ℕ) (rs : List ℕ) → includes rs v ≡ true → includes (add_reason why rs) v ≡ true
includes-add_reason v why rs h =
    if_lem (λ l. includes l v ≡ true) (includes rs why) (λ there. h)
      (λ new. includes-snoc v why rs h)

add_reason_self : (why : ℕ) (rs : List ℕ) → includes (add_reason why rs) why ≡ true
add_reason_self why rs =
    if_lem (λ l. includes l why ≡ true) (includes rs why) (λ there. there) (λ new. snoc_self why rs)

event_holds :
    (why : ℕ) (e : Event) (d : Debouncer)
    → includes d.reasons why ≡ true
    → (tells why (called e d) ≡ true) ⊎ (includes (on_event e d).reasons why ≡ true)
unfolding on_event schedule fire finish_call
event_holds why (trigger w) d h = let kept = includes-add_reason why w d.reasons h in ground arith
event_holds why timer_fires d h = ground arith
event_holds why call_ends d h =
    let kept = includes-add_reason why follow_up d.reasons h in ground arith

events_hold :
    (why : ℕ) (es : List Event) (d : Debouncer)
    → includes d.reasons why ≡ true
    → (is_told why es d ≡ true) ⊎ (includes (run_events es d).reasons why ≡ true)
unfolding run_events is_told
events_hold why [] d h = inr h
events_hold why (e ∷ es) d h = elim (event_holds why e d h) [
  | inl now ↦ inl (ground arith)
  | inr kept ↦ elim (events_hold why es (on_event e d) kept) [
    | inl later ↦ inl (ground arith)
    | inr still ↦ inr still
  ]
]

schedule_holds : (why : ℕ) (d : Debouncer) → includes (schedule why d).reasons why ≡ true
unfolding schedule
schedule_holds why d = let there = add_reason_self why d.reasons in ground arith

-- Whatever triggers, timers and ends of calls follow a trigger, its reason is either handed to a call of `fn` that
-- starts after it, or still collected; and what is collected is waited for: the timer is set, or a call is
-- running that will be followed by another.
pub run_events-IsServed :
    (why : ℕ) (events : List Event) (d : Debouncer)
    → IsServed d
    → let asked = on_event (trigger why) d in
      let last = run_events events asked in
      ((is_told why events asked ≡ true) ⊎ (includes last.reasons why ≡ true)) × IsServed last
unfolding on_event
run_events-IsServed why events d h =
    let asked = on_event (trigger why) d in
    (
      events_hold why events asked (schedule_holds why d),
      run_events-Serves events asked (event-IsServed (trigger why) d h),
    )
