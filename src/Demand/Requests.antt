-- ===== src/Demand/Requests.antt =====
-- The demand file as its writers change it (keepers/v3/lib/price-demand.mjs: mergeRequest, dropRequest,
-- prune, summarize). Requesters and stocks are numbers; a stock's number stands for its address without
-- regard to case, as `keyOf` finds it. The texts of the reasons are left out, so a body is the stamps of
-- each requester: `requestsOf` reads the same out of what `summarize` writes.
mod Stamping
pub mod Stamps
mod Tests
use solonpad_contracts.Base.{
  Bool, List, Option, [], false, if◌then◌else◌, leb, maximum, none, some, true, ℕ, ◌+◌, ◌||◌, ◌∷◌,
}
use solonpad_contracts.Base.Dict.{Dict, erase, insert, lookup}

-- The stamps of each requester.
abbrev pub Requests : Type 0
Requests = Dict (Dict ℕ)

-- One entry of `requests` in the file.
pub record Entry : Type 0 where
  pub underlyings : List ℕ
  pub stamps : Dict ℕ
  pub requested_at : ℕ

-- `prune` of one requester: a stamp older than the limit is deleted.
pub prune_stamps : (now ttl : ℕ) → Dict ℕ → Dict ℕ
prune_stamps now ttl [] = []
prune_stamps now ttl ((u, t) ∷ d) =
    let rest = prune_stamps now ttl d in if leb now (t + ttl) then (u, t) ∷ rest else rest

-- `prune`
pub prune : (now ttl : ℕ) → Requests → Requests
prune now ttl [] = []
prune now ttl ((k, d) ∷ rs) = (k, prune_stamps now ttl d) ∷ prune now ttl rs

-- `reqs[requester] ?? { at: {} }`
abbrev pub mine_of : Option (Dict ℕ) → Dict ℕ
mine_of none = []
mine_of (some d) = d

-- `!(k in mine.at) || nowSec - mine.at[k] >= refreshSec`
abbrev pub is_due : (now refresh : ℕ) → Option ℕ → Bool
is_due now refresh none = true
is_due now refresh (some t) = leb (t + refresh) now

-- The loop of `mergeRequest` over the asked stocks; the flag is the status `demand-written`.
pub stamp_all : (now refresh : ℕ) → List ℕ → Dict ℕ → Dict ℕ × Bool
stamp_all now refresh [] at = (at, false)
stamp_all now refresh (u ∷ us) at =
    let due = is_due now refresh (lookup u at) in
    let (final, written) = stamp_all now refresh us (if due then insert u now at else at) in
    (final, due || written)

-- `summarize`: a requester without stamps is dropped.
abbrev pub is_live : Dict ℕ → Bool
is_live [] = false
is_live (s ∷ d) = true

pub summarize : Requests → Requests
summarize [] = []
summarize ((k, d) ∷ rs) = let rest = summarize rs in if is_live d then (k, d) ∷ rest else rest

-- `mergeRequest`
pub merge_request :
    (now refresh ttl requester : ℕ) (underlyings : List ℕ) → Requests → Requests × Bool
merge_request now refresh ttl requester us body =
    let reqs = prune now ttl body in
    let (mine, written) = stamp_all now refresh us (mine_of (lookup requester reqs)) in
    (summarize (insert requester mine reqs), written)

-- `for (const k of drop) delete mine.at[k]`
pub drop_stamps : List ℕ → Dict ℕ → Dict ℕ
drop_stamps [] at = at
drop_stamps (u ∷ us) at = drop_stamps us (erase u at)

abbrev pub holds_any : List ℕ → Dict ℕ → Bool
holds_any [] at = false
holds_any (u ∷ us) at =
    let rest = holds_any us at in elim (lookup u at) [ none ↦ rest | some t ↦ true ]

-- `dropRequest` of named stocks; `none` when nothing changed.
pub drop_request : (requester : ℕ) (underlyings : List ℕ) → Requests → Option Requests
drop_request requester us body = elim (lookup requester body) [
  | none ↦ none
  | some mine ↦
      if holds_any us mine
      then some (summarize (insert requester (drop_stamps us mine) body))
      else none
]

-- The entry that `summarize` writes for one requester.
unfoldable pub keys_of : Dict ℕ → List ℕ
keys_of [] = []
keys_of ((u, t) ∷ d) = u ∷ keys_of d

pub times_of : Dict ℕ → List ℕ
times_of [] = []
times_of ((u, t) ∷ d) = t ∷ times_of d

pub entry_of : Dict ℕ → Entry
entry_of d = record { underlyings = keys_of d; stamps = d; requested_at = maximum (times_of d) }

pub entries_of : Requests → List Entry
entries_of [] = []
entries_of ((k, d) ∷ rs) = entry_of d ∷ entries_of rs
