-- ===== src/Demand/Freshness.antt =====
-- The freshness of an asset's price on Arc and what a keeper does about it (keepers/v3/lib/price-demand.mjs:
-- checkArcPrice, ensureFreshPrice). The oracle contract's readings are a record; times and ages are natural
-- numbers, the age of a missing observation is `none` (the source's Infinity).
pub mod Acting
mod Tests
use solonpad_contracts.Base.{
  Bool, Option, [], false, if◌then◌else◌, leb, ltb, none, not, or_else, some, true, ℕ, ◌&&◌, ◌+◌,
  ◌-◌, ◌==◌, ◌||◌, ◌∷◌,
}
use solonpad_contracts.Demand.Requests.{Requests, drop_request, merge_request}

abbrev pub status_live : ℕ
status_live = 1

abbrev pub status_stale : ℕ
status_stale = 2

-- `latest`, `assetOf` and `priceUSD18`.
pub record ArcReading : Type 0 where
  pub status : ℕ
  pub observed_at : ℕ
  pub relayed_price18 : ℕ
  pub price_usd18 : ℕ
  pub max_age : ℕ
  pub underlying : ℕ

pub data Check : Type 0 where
  fresh no_relayed bad_status frozen_feed demandable : Check

abbrev pub age_of : (now observed_at : ℕ) → Option ℕ
age_of now at = if at == 0 then none else some (now - at)

abbrev pub within : Option ℕ → (margin limit : ℕ) → Bool
within none margin limit = false
within (some age) margin limit = leb (age + margin) limit

abbrev pub is_none : Option ℕ → Bool
is_none none = true
is_none (some n) = false

-- `checkArcPrice`; `window` is `windowSec`.
unfoldable pub check_arc_price : ArcReading → (now : ℕ) (window : Option ℕ) (margin : ℕ) → Check
check_arc_price r now window margin =
    let age = age_of now r.observed_at in
    let limit = or_else window r.max_age in
    let live = not (is_none window) || r.status == status_live in
    if ltb 0 r.price_usd18 && within age margin limit && live
    then fresh
    else if r.relayed_price18 == 0
    then no_relayed
    else if not (r.status == status_live) && not (r.status == status_stale)
    then bad_status
    else if r.status == status_stale && within age 0 r.max_age
    then frozen_feed
    else demandable

pub data Outcome : Type 0 where
  acts not_demandable dry_run no_status_dir demand_written demand_pending : Outcome

-- `ensureFreshPrice` over the demand file; `none` for the directory is a missing `statusDir`. A fresh price
-- clears the requester's own stamp of the stock.
pub ensure_fresh_price :
    ArcReading
    → (now wall : ℕ) (window : Option ℕ) (margin refresh ttl requester : ℕ) (execute has_dir : Bool)
    → Requests
    → Outcome × Requests
ensure_fresh_price r now wall window margin refresh ttl requester execute has_dir file =
    let asked = r.underlying ∷ [] in
    let cleared = or_else (drop_request requester asked file) file in
    let (body, written) = merge_request wall refresh ttl requester asked file in
    elim (check_arc_price r now window margin) [
      | fresh ↦ (acts, if execute && has_dir then cleared else file)
      | demandable ↦
          if not execute
          then (dry_run, file)
          else if not has_dir
          then (no_status_dir, file)
          else if written
          then (demand_written, body)
          else (demand_pending, file)
      | _ ↦ (not_demandable, file)
    ]
