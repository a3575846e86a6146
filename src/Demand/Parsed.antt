-- ===== src/Demand/Parsed.antt =====
-- The demand file as the oracle keeper reads it (keepers/v3/oracle/decide.mjs: parseDemand), from the
-- entries of a file of version 2 or the one entry of version 1. A stock is the number of its listed
-- spelling. The reason texts are left out, and what is wrong with an entry is told only for the first.
pub mod Landed
mod Tests
use solonpad_contracts.Base.{
  Bool, List, Option, Result, [], err, if◌then◌else◌, includes, length, ltb, max, maximum, min,
  none, not, ok, or_else, some, true, ℕ, ◌&&◌, ◌+◌, ◌==◌, ◌∷◌,
}
use solonpad_contracts.Base.Dict.{Dict, insert, lookup}
use solonpad_contracts.Demand.Requests.{Entry, keys_of, times_of}
use solonpad_contracts.Oracle.Trigger.{Demand}

pub data Why : Type 0 where
  no_underlyings no_time unlisted expired no_request : Why

abbrev pub all_listed : List ℕ → List ℕ → Bool
all_listed listed [] = true
all_listed listed (u ∷ us) = includes listed u && all_listed listed us

-- `Math.min(own > 0 ? own : requestedAt, nowSec)`
abbrev pub own_stamp : (now requested_at : ℕ) → Option ℕ → ℕ
own_stamp now at none = min at now
own_stamp now at (some own) = min (if ltb 0 own then own else at) now

-- The inner loop: the latest unexpired stamp of each stock.
pub collect : (now ttl requested_at : ℕ) → Dict ℕ → List ℕ → Dict ℕ → Dict ℕ
collect now ttl requested stamps [] at = at
collect now ttl requested stamps (u ∷ us) at =
    let t = own_stamp now requested (lookup u stamps) in
    let before = or_else (lookup u at) 0 in
    collect now ttl requested stamps us
      (if ltb (t + ttl) now then at else insert u (max before t) at)

-- What keeps an entry from being read.
pub refused_for : (listed : List ℕ) (now ttl : ℕ) → Entry → Option Why
refused_for listed now ttl e =
    if length e.underlyings == 0
    then some no_underlyings
    else if e.requested_at == 0
    then some no_time
    else if not (all_listed listed e.underlyings)
    then some unlisted
    else if ltb (min e.requested_at now + ttl) now
    then some expired
    else none

-- One entry: what was collected with it, or its reason where there was none yet.
abbrev pub add_entry : Option Why → (collected at : Dict ℕ) (why : Option Why) → Dict ℕ × Option Why
add_entry none collected at why = (collected, why)
add_entry (some w) collected at why = (at, some (or_else why w))

-- The outer loop, with the stamps collected and the first reason.
pub read_entries :
    (listed : List ℕ) (now ttl : ℕ) → List Entry → Dict ℕ → Option Why → Dict ℕ × Option Why
read_entries listed now ttl [] at why = (at, why)
read_entries listed now ttl (e ∷ es) at why =
    let collected = collect now ttl (min e.requested_at now) e.stamps e.underlyings at in
    let (next, reason) = add_entry (refused_for listed now ttl e) collected at why in
    read_entries listed now ttl es next reason

abbrev pub to_demand : Dict ℕ → Option Why → Result Why Demand
to_demand [] none = err no_request
to_demand [] (some w) = err w
to_demand (s ∷ d) why =
    let at = s ∷ d in
    ok (record { underlyings = keys_of at; requested_at = maximum (times_of at); stamps = at })

-- `parseDemand`
pub parse_demand : (listed : List ℕ) (now ttl : ℕ) → List Entry → Result Why Demand
parse_demand listed now ttl es =
    let (at, why) = read_entries listed now ttl es [] none in to_demand at why
