-- ===== src/Oracle/Trigger.antt =====
-- Why one stock is due for a push (keepers/v3/oracle/decide.mjs: movedBps, twapUsd, twapDivergent, the
-- loop body of decidePush, recordPush). A stock is a number. `market === false` is a missing gate.
pub mod Answered
mod Tests
use solonpad_contracts.Base.{
  Bool, List, Option, [], if◌then◌else◌, includes, leb, ltb, none, not, some, ℕ, ◌&&◌, ◌*◌, ◌+◌,
  ◌-◌, ◌/◌, ◌<◌, ◌==◌, ◌^◌, ◌||◌, ◌∷◌,
}
use solonpad_contracts.Base.Dict.{Dict, insert, lookup}
use solonpad_contracts.Market.{MarketParams}

abbrev pub e18 : ℕ
e18 = 10 ^ 18

-- The parameters of `mergeParams` that the decision reads.
pub record OracleParams : Type 0 where
  pub deviation_bps : ℕ
  pub heartbeat_sec : ℕ
  pub heartbeat_margin_sec : ℕ
  pub max_twap_bps : ℕ
  pub twap_trigger : Bool
  pub freshness_sec : ℕ
  pub max_source_age_sec : ℕ
  pub min_interval_sec : ℕ
  pub demand_min_interval_sec : ℕ
  pub demand_coalesce_sec : ℕ
  pub batch_all : Bool
  pub session_holidays : List ℕ
  pub market : Option MarketParams

-- What `mergeParams` refuses to leave otherwise.
pub record IsMerged (p : OracleParams) : Type 0 where
  pub margin : 0 < p.heartbeat_sec → p.heartbeat_margin_sec < p.heartbeat_sec

-- An observation; a missing quote counts as one dollar.
pub record Observation : Type 0 where
  pub price18 : ℕ
  pub twap_price18 : ℕ
  pub quote_usd18 : Option ℕ

-- A fresh read of one stock: failed, or an observation with the feed's time.
pub data Reading : Type 0 where
  unreadable : Reading
  read : Observation → (source_updated_at : ℕ) → Reading

-- The last known push of one stock.
pub record LastPush : Type 0 where
  pub seen : Observation
  pub pushed_at : ℕ
  pub l1_block : Option ℕ

pub record Demand : Type 0 where
  pub underlyings : List ℕ
  pub requested_at : ℕ
  pub stamps : Dict ℕ

-- `movedBps`: |a - ref| * 10_000 > ref * bps.
unfoldable pub moved_bps : (a ref bps : ℕ) → Bool
moved_bps a ref bps = ltb (ref * bps) ((a - ref + (ref - a)) * 10_000)

-- `twapUsd`
pub twap_usd : Observation → ℕ
twap_usd o = o.twap_price18 * elim o.quote_usd18 [ none ↦ e18 | some q ↦ q ] / e18

-- `twapDivergent`
pub twap_divergent : Observation → (max_twap_bps : ℕ) → Bool
twap_divergent o max_bps =
    ltb 0 max_bps && (o.twap_price18 == 0 || moved_bps o.price18 (twap_usd o) max_bps)

pub data Trigger : Type 0 where
  initial deviation twap heartbeat freshness demanded : Trigger

abbrev when : Bool → Trigger → List Trigger → List Trigger
when test t rest = if test then t ∷ rest else rest

-- The triggers that a known last push leaves, before any demand. The age test is written without the
-- subtraction, which a push from the future would make negative.
unfoldable pub known_triggers :
    OracleParams
    → (now : ℕ) (session_open : Bool) → LastPush
    → Observation
    → (updated : ℕ) → List Trigger
known_triggers p now open_now l c updated =
    let live = open_now && leb now (updated + p.max_source_age_sec) in
    when (moved_bps c.price18 l.seen.price18 p.deviation_bps) deviation (
      when
        (p.twap_trigger
          && twap_divergent l.seen p.max_twap_bps
          && not (twap_divergent c p.max_twap_bps))
        twap
        (when
          (live
            && ltb 0 p.heartbeat_sec
            && leb (l.pushed_at + (p.heartbeat_sec - p.heartbeat_margin_sec)) now)
          heartbeat
          (when (live && ltb 0 p.freshness_sec && leb (l.pushed_at + p.freshness_sec) now) freshness
            [])))

-- `if (!l || !l.price18) r.push('initial'); else { ... }`
unfoldable pub push_triggers :
    OracleParams
    → (now : ℕ) (session_open : Bool) → Option LastPush
    → Observation
    → (updated : ℕ) → List Trigger
unfolding known_triggers moved_bps twap_divergent
push_triggers p now open_now none c updated = initial ∷ []
push_triggers p now open_now (some l) c updated =
    if l.seen.price18 == 0 then initial ∷ [] else known_triggers p now open_now l c updated

-- `Number(l?.pushedAt ?? 0)`
abbrev pub pushed_at_of : Option LastPush → ℕ
pushed_at_of none = 0
pushed_at_of (some l) = l.pushed_at

-- `demand.at?.[u] ?? demand.requestedAt`
abbrev pub asked_at : Demand → ℕ → ℕ
asked_at d u = elim (lookup u d.stamps) [ none ↦ d.requested_at | some at ↦ at ]

-- What a demand asks of one stock: nothing that a push since has not answered, a push, or a push that
-- would land divergent and is refused.
pub data Asked : Type 0 where
  not_asked asks refuses : Asked

unfoldable pub demand_asks :
    OracleParams → Option Demand → (u : ℕ) → Option LastPush → Observation → Asked
demand_asks p none u l c = not_asked
demand_asks p (some d) u l c =
    if includes d.underlyings u && ltb (pushed_at_of l + p.demand_coalesce_sec) (asked_at d u)
    then (if p.twap_trigger && twap_divergent c p.max_twap_bps then refuses else asks)
    else not_asked

-- The loop body of `recordPush`: the observation of one stock, as read at the push.
pub record_one : (at : ℕ) (l1_block : Option ℕ) (u : ℕ) → Reading → Dict LastPush → Dict LastPush
record_one at block u unreadable last = last
record_one at block u (read o _) last =
    insert u (record { seen = o; pushed_at = at; l1_block = block }) last

-- `recordPush`
pub record_push :
    List ℕ
    → (observations : ℕ → Reading) (pushed_at : ℕ) (l1_block : Option ℕ) → Dict LastPush
    → Dict LastPush
record_push [] obs at block last = last
record_push (u ∷ us) obs at block last =
    record_push us obs at block (record_one at block u (obs u) last)
