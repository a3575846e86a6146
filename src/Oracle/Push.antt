-- ===== src/Oracle/Push.antt =====
-- What the keeper pushes and when (keepers/v3/oracle/decide.mjs: sessionOpen, marketParams, decidePush,
-- backoffMs). `current` is the list of its entries; New York's clock is a reading.
pub mod Guards
pub mod Due
mod Tests
use solonpad_contracts.Base.{
  Bool, List, Option, [], false, if◌then◌else◌, leb, ltb, min, none, not, ok, some, true, ℕ, ◌&&◌,
  ◌*◌, ◌++◌, ◌+◌, ◌==◌, ◌^◌, ◌∷◌,
}
use solonpad_contracts.Base.Dict.{Dict, lookup}
use solonpad_contracts.Market.{
  GateResult, MarketParams, NyTime, is_open, market_defaults, market_gate, nyse_holidays,
  session_state,
}
use solonpad_contracts.Oracle.Trigger.{
  Asked, Demand, LastPush, OracleParams, Reading, Trigger, asks, demand_asks, demanded,
  push_triggers, read, unreadable,
}

-- `marketParams`: the operator's holidays are added to the built-in table.
pub market_params : OracleParams → MarketParams → MarketParams
market_params p m = record m { holidays = nyse_holidays ++ p.session_holidays ++ m.holidays }

-- `sessionOpen`; a gate that is off leaves the default calendar.
pub session_open : OracleParams → NyTime → Bool
session_open p t = is_open (
    session_state
      (market_params p
        (elim p.market [ none ↦ record market_defaults { holidays = [] } | some m ↦ m ]))
      t)

-- `if (mp) { g = marketGate(...) }`
pub gate : OracleParams → NyTime → (now updated : ℕ) → Option MarketParams → GateResult
gate p t now updated none = record { ok = true; closed = false; alert = false }
gate p t now updated (some m) = market_gate (market_params p m) t updated now

-- What the loop makes of one stock.
pub data Verdict : Type 0 where
  skips : Verdict
  blocks : (alert : Bool) → Verdict
  judged : List Trigger → Asked → Verdict

-- Everything that one decision reads.
pub record Situation : Type 0 where
  pub now_sec : ℕ
  pub ny : NyTime
  pub l1_block : Option ℕ
  pub current : List (ℕ × Reading)
  pub last : Dict LastPush
  pub last_push_at : ℕ
  pub last_l1_block : ℕ
  pub demand : Option Demand

-- The loop body for one stock, with its verdict.
pub judge : OracleParams → Situation → ℕ → Reading → Verdict
judge p s u unreadable = skips
judge p s u (read o updated) =
    let g = gate p s.ny s.now_sec updated p.market in
    let l = lookup u s.last in
    if g.ok
    then judged (push_triggers p s.now_sec (session_open p s.ny) l o updated)
        (demand_asks p s.demand u l o)
    else blocks g.alert

-- The reasons of a stock: its triggers, and the demand if it asks.
pub reasons_of : Verdict → List Trigger
reasons_of (judged ts asks) = ts ++ demanded ∷ []
reasons_of (judged ts _) = ts
reasons_of _ = []

abbrev pub is_readable : Verdict → Bool
is_readable (judged _ _) = true
is_readable _ = false

abbrev pub is_nil : List Trigger → Bool
is_nil [] = true
is_nil (_ ∷ _) = false

-- `Object.keys(reasons)`: the stocks with a reason, in order.
pub due_stocks : OracleParams → Situation → List (ℕ × Reading) → List ℕ
due_stocks p s [] = []
due_stocks p s ((u, r) ∷ rest) =
    let more = due_stocks p s rest in if is_nil (reasons_of (judge p s u r)) then more else u ∷ more

-- `readable`: read, and not behind the gate.
pub readable_stocks : OracleParams → Situation → List (ℕ × Reading) → List ℕ
readable_stocks p s [] = []
readable_stocks p s ((u, r) ∷ rest) =
    let more = readable_stocks p s rest in if is_readable (judge p s u r) then u ∷ more else more

abbrev is_demanded : Trigger → Bool
is_demanded demanded = true
is_demanded _ = false

abbrev all_demanded : List Trigger → Bool
all_demanded [] = true
all_demanded (t ∷ ts) = is_demanded t && all_demanded ts

-- `onlyDemand`
pub only_demand : OracleParams → Situation → List (ℕ × Reading) → Bool
only_demand p s [] = true
only_demand p s ((u, r) ∷ rest) = all_demanded (reasons_of (judge p s u r)) && only_demand p s rest

pub data PushDecision : Type 0 where
  nothing_due : PushDecision
  min_interval same_block : (wait : ℕ) → PushDecision
  push : (underlyings : List ℕ) → PushDecision

-- `l1Block != null && lastL1Block && Number(l1Block) <= Number(lastL1Block)`
abbrev pub same_l1_block : Option ℕ → ℕ → Bool
same_l1_block none last = false
same_l1_block (some b) last = not (last == 0) && leb b last

abbrev pub min_gap : OracleParams → Bool → ℕ
min_gap p only = if only then p.demand_min_interval_sec else p.min_interval_sec

-- The guards behind the list of due stocks.
pub guard_push : OracleParams → Situation → (due readable : List ℕ) (only : Bool) → PushDecision
guard_push p s [] readable only = nothing_due
guard_push p s (u ∷ due) readable only =
    if not (s.last_push_at == 0) && ltb s.now_sec (s.last_push_at + min_gap p only)
    then min_interval (s.last_push_at + min_gap p only)
    else if same_l1_block s.l1_block s.last_l1_block
    then same_block (s.last_l1_block + 1)
    else push (if p.batch_all then readable else u ∷ due)

-- `decidePush`. The main reason, the skipped, blocked and refused stocks are reports and left out.
pub decide_push : OracleParams → Situation → PushDecision
decide_push p s =
    guard_push p s (due_stocks p s s.current) (readable_stocks p s s.current)
      (only_demand p s s.current)

-- `backoffMs`
pub backoff_ms : (attempt base_ms max_ms : ℕ) → ℕ
backoff_ms attempt base_ms max_ms = min max_ms (base_ms * 2 ^ attempt)
