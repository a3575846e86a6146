-- ===== src/Demand/Awaiting.antt =====
-- Waiting for a usable price before a payout (keepers/v3/desk/keeper.mjs: priceReady, keepers/v3/push/keeper.mjs:
-- priceReady). Both keepers take the same steps with other answers, so the steps are one function and each
-- keeper says which of its ends let the payout go on.
pub mod Asked
use solonpad_contracts.Base.{
  Bool, Option, [], false, if◌then◌else◌, none, not, or_else, some, true, ℕ, ◌&&◌, ◌∷◌,
}
use solonpad_contracts.Market.{MarketParams, NyTime, is_open, session_state}
use solonpad_contracts.Demand.Requests.{Requests, drop_request, merge_request}
use solonpad_contracts.Demand.Freshness.{ArcReading, Check, check_arc_price, demandable, fresh}

-- What a keeper reads and is configured with: the oracle's reading (`none` when the read fails), the times, and
-- the market's parameters (`none` for `market: false`).
pub record Ask : Type 0 where
  pub reading : Option ArcReading
  pub now : ℕ
  pub stamp : ℕ
  pub window : ℕ
  pub margin : ℕ
  pub refresh : ℕ
  pub ttl : ℕ
  pub requester : ℕ
  pub execute : Bool
  pub has_dir : Bool
  pub market : Option MarketParams
  pub ny : NyTime

pub data Answer : Type 0 where
  fresh_price unreadable not_usable market_closed waits_dry no_dir asked : Answer

abbrev pub market_open : Option MarketParams → NyTime → Bool
market_open none t = true
market_open (some p) t = is_open (session_state p t)

-- The steps behind the oracle's reading.
abbrev pub answer_reading : Ask → ArcReading → Requests → Check → Answer × Requests
answer_reading a r file fresh =
    let cleared = or_else (drop_request a.requester (r.underlying ∷ []) file) file in
    (fresh_price, if a.execute && a.has_dir then cleared else file)
answer_reading a r file demandable =
    let (body, written) =
      merge_request a.stamp a.refresh a.ttl a.requester (r.underlying ∷ []) file in
    if not (market_open a.market a.ny)
    then (market_closed, file)
    else if not a.execute
    then (waits_dry, file)
    else if not a.has_dir
    then (no_dir, file)
    else (asked, if written then body else file)
answer_reading a r file _ = (not_usable, file)

abbrev answer_from : Ask → Option ArcReading → Requests → Answer × Requests
answer_from a none file = (unreadable, file)
answer_from a (some r) file =
    answer_reading a r file (check_arc_price r a.now (some a.window) a.margin)

-- `priceReady`, up to its verdict.
pub answer : Ask → Requests → Answer × Requests
answer a file = answer_from a a.reading file

-- The Desk keeper goes on with a fresh price only.
abbrev pub desk_goes : Answer → Bool
desk_goes fresh_price = true
desk_goes _ = false

-- The push keeper also goes on where nothing can be asked for: its day plan then decides.
abbrev pub push_goes : Answer → Bool
push_goes fresh_price = true
push_goes unreadable = true
push_goes not_usable = true
push_goes market_closed = true
push_goes _ = false
