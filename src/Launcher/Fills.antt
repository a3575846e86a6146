-- ===== src/Launcher/Fills.antt =====
-- Watching the Relay fills of launched orders, and the funding lane of the round keeper on top of the launcher
-- (keepers/v3/launcher/keeper.mjs: watchFills, SchedulerFundingLane).
pub mod Watched
mod Tests
use solonpad_contracts.Base.{
  Bool, List, Option, [], false, if◌then◌else◌, ltb, none, not, or_else, some, true, ℕ, ◌-◌, ◌==◌,
  ◌||◌, ◌∷◌,
}
use solonpad_contracts.Base.Dict.{Dict}
use solonpad_contracts.Launcher.Planning.{Params}
use solonpad_contracts.Launcher.Launch.{
  Alert, Fill, LaunchRec, abandoned, failure, fill_failed, fill_slow, refunded, success,
}

-- What Relay says of a request; an error of the request is `unknown`.
pub data RelayStatus : Type 0 where
  relay_success relay_failure relay_refund waiting unknown : RelayStatus

-- `!rec.launchedAt || rec.fill === 'success' || rec.fill === 'abandoned' || !rec.relayRequestId`
abbrev pub is_settled : Fill → Bool
is_settled success = true
is_settled abandoned = true
is_settled _ = false

abbrev pub is_set : Option ℕ → Bool
is_set none = false
is_set (some n) = true

pub skips : LaunchRec → Bool
skips r = not (is_set r.launched_at) || is_settled r.fill || not (is_set r.request_id)

-- What becomes of a watched launch: its record, and the alert.
abbrev pub on_relay : (id now : ℕ) → Params → LaunchRec → RelayStatus → LaunchRec × Option Alert
on_relay id now p r relay_success = (record r { fill = success }, none)
on_relay id now p r relay_failure = (record r { fill = failure }, some (fill_failed id))
on_relay id now p r relay_refund = (record r { fill = refunded }, some (fill_failed id))
on_relay id now p r _ =
    (r, if ltb p.fill_alert_sec (now - or_else r.launched_at 0) then some (fill_slow id) else none)

pub watch_fill : (id now : ℕ) → Params → LaunchRec → RelayStatus → LaunchRec × Option Alert
unfolding skips
watch_fill id now p r status =
    let seen = on_relay id now p r status in if skips r then (r, none) else seen

-- `watchFills`
pub watch_fills :
    (status_of : ℕ → RelayStatus) (now : ℕ) → Params → Dict LaunchRec → Dict LaunchRec × List Alert
watch_fills status_of now p [] = ([], [])
watch_fills status_of now p ((id, r) ∷ rs) =
    let (seen, alert) = watch_fill id now p r (status_of (or_else r.request_id 0)) in
    let (rest, alerts) = watch_fills status_of now p rs in
    ((id, seen) ∷ rest, elim alert [ none ↦ alerts | some a ↦ a ∷ alerts ])

-- An open order of the hub: its capacity key and whether it is still pending.
pub record OpenOrder : Type 0 where
  pub id : ℕ
  pub cap_key : ℕ
  pub is_waiting : Bool

-- `findOrder`: the newest open order of a key.
pub find_order : (cap_key : ℕ) → List OpenOrder → Option OpenOrder
find_order k [] = none
find_order k (o ∷ os) =
    let later = find_order k os in
    elim later [ some found ↦ some found | none ↦ if o.cap_key == k then some o else none ]

-- `dispatch` of the lane: it throws "queued" until the order has left the scheduler. `after` is what the hub lists
-- behind the launcher's tick, which runs only for a pending order.
pub data Dispatch : Type 0 where
  queued : Dispatch
  dispatched : (id : ℕ) → Dispatch

abbrev pub on_found : Option OpenOrder → Dispatch
on_found none = queued
on_found (some o) = if o.is_waiting then queued else dispatched o.id

pub dispatch_order : (cap_key : ℕ) (before after : List OpenOrder) → Dispatch
dispatch_order k before after = elim (find_order k before) [
  | none ↦ queued
  | some o ↦ if o.is_waiting then on_found (find_order k after) else dispatched o.id
]
