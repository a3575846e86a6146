-- ===== src/Demand/Freshness/Acting.antt =====
-- A keeper acts only on a fresh price, and otherwise asks for one only where a push can help.
use solonpad_contracts.Base.{
  Bool, Option, [], arith, false, none, or_else, some, true, ℕ, ◌+◌, ◌-◌, ◌<◌, ◌↔◌, ◌∷◌, ◌≡◌, ◌≢◌,
  ◌≤◌, ◌⊎◌,
}
use solonpad_contracts.Demand.Requests.{Requests, merge_request}
use solonpad_contracts.Demand.Freshness.{
  ArcReading, acts, check_arc_price, demand_written, demandable, ensure_fresh_price, fresh,
  status_live, status_stale,
}

-- A keeper acts exactly when the oracle gives a price, it has an observation that stays within the window for
-- the margin, and, without a window of its own, the oracle calls the asset live.
pub check_arc_price-fresh :
    (r : ArcReading) (now margin : ℕ) (window : Option ℕ)
    → (check_arc_price r now window margin ≡ fresh) ↔ (
        (0 < r.price_usd18)
        × (0 < r.observed_at)
        × (now - r.observed_at + margin ≤ or_else window r.max_age)
        × ((r.status ≡ status_live) ⊎ (window ≢ none)))
unfolding check_arc_price
check_arc_price-fresh r now margin none = ground arith
check_arc_price-fresh r now margin (some w) = ground arith

-- A push is asked for only when the asset has a relayed price, the oracle calls it live or stale, and a stale
-- one is stale because its observation is missing or old.
pub check_arc_price_demandable :
    (r : ArcReading) (now margin : ℕ) (window : Option ℕ)
    → check_arc_price r now window margin ≡ demandable
    → (0 < r.relayed_price18)
      × ((r.status ≡ status_live)
          ⊎ ((r.status ≡ status_stale) × ((r.observed_at ≡ 0) ⊎ (r.observed_at + r.max_age < now))))
unfolding check_arc_price
check_arc_price_demandable r now margin none h = ground arith
check_arc_price_demandable r now margin (some w) h = ground arith

-- The demand file changes only for a keeper that executes and has a directory; it acts exactly on a fresh
-- price, and the outcome says whether a demand was written.
pub ensure_fresh_price_lem :
    (r : ArcReading) (now wall : ℕ) (window : Option ℕ) (margin refresh ttl requester : ℕ)
    (execute has_dir : Bool) (file : Requests)
    → let (outcome, next) =
        ensure_fresh_price r now wall window margin refresh ttl requester execute has_dir file in
      ((outcome ≡ acts) ↔ (check_arc_price r now window margin ≡ fresh))
      × ((execute ≡ true) × (has_dir ≡ true) ⊎ (next ≡ file))
      × (outcome ≡ demand_written
          → (check_arc_price r now window margin ≡ demandable)
            × (next ≡ (merge_request wall refresh ttl requester (r.underlying ∷ []) file).0))
unfolding ensure_fresh_price
ensure_fresh_price_lem r now wall window margin refresh ttl requester true true file = ground arith
ensure_fresh_price_lem r now wall window margin refresh ttl requester true false file = ground arith
ensure_fresh_price_lem r now wall window margin refresh ttl requester false has_dir file =
    ground arith
