-- ===== src/Round/Start/Admitted.antt =====
-- Only an admitted order is started.
use solonpad_contracts.Demand.Freshness.{ArcReading, status_live}
use solonpad_contracts.Market.{MarketParams, NyTime, is_open, session_state}
use solonpad_contracts.Base.{
  Option, arith, false, none, ok, some, true, ℕ, ◌+◌, ◌-◌, ◌<◌, ◌≡◌, ◌≢◌, ◌≤◌, ◌⊎◌,
}
use solonpad_contracts.Round.Budget.{admitted, check_adapter_quote}
use solonpad_contracts.Round.Start.{
  Plan, Readings, Revert, Sent, arc_reading, insufficient_value, is_paid, no_arc, no_feed,
  on_start_rejected, other_revert, plan_order, replan, reusable, sent_start, updated,
}

-- An order that the adapter's check admits: its budget within the band, and its fixed cost at most a
-- two-hundredth of it.
abbrev pub IsAdmitted : (max_budget : ℕ) → Plan → Type 0
IsAdmitted most p = check_adapter_quote p.total p.fixed_cost18 most ≡ admitted

-- What the journal can hold of a plan: nothing, an order planned under some limit, or one that a rejected start
-- changed.
pub data Stored : Option Plan → Type 0 where
  never_stored : Stored none
  stored_new :
      (r : Readings) (total most : ℕ) {p : Plan} → plan_order r total most ≡ ok p → Stored (some p)
  stored_rejected :
      {p : Plan} (revert : Revert) → Stored (some p) → Stored (some (on_start_rejected revert p))

-- The order was admitted under some limit, the one of its planning.
abbrev pub WasAdmitted : Option Plan → Type 0
WasAdmitted none = Unit
WasAdmitted (some p) = (most : ℕ) × IsAdmitted most p

-- What is said of a started order: the saved one, admitted when it was planned, or a new one.
abbrev pub IsStarted : Readings → (total most : ℕ) → Option Plan → Plan → Type 0
IsStarted r total most saved order =
    ((order.fees18 ≤ r.fee_balance) ⊎ (is_paid r.deposit ≡ true))
    × (r.is_signed ≡ true)
    × (order.expired ≡ false)
    × (((saved ≡ some order) × (r.now + 60 < order.deadline) × WasAdmitted (some order))
        ⊎ (IsAdmitted most order
            × (order.total ≡ total)
            × (order.deadline ≡ r.now + r.quote_ttl)
            × (r.price ≢ none)))

-- The calendar's session is open, and the feed was updated within its heartbeat.
abbrev pub IsTrading : MarketParams → NyTime → (at now : ℕ) → Type 0
IsTrading p t at now =
    (is_open (session_state p t) ≡ true)
    × (0 < at)
    × (now ≤ at + p.heartbeat_sec + p.heartbeat_margin_sec)

-- The adapter's oracle is live, and its price is positive and stays within its age limit for the margin.
abbrev pub IsRecent : ArcReading → (now margin : ℕ) → Type 0
IsRecent a now margin =
    (a.status ≡ status_live)
    × (0 < a.price_usd18)
    × (0 < a.observed_at)
    × (now - a.observed_at + margin ≤ a.max_age)

-- The market is open: not watched, without an oracle, or by the calendar and the feed.
abbrev pub IsOpen : Readings → Type 0
IsOpen r =
    (r.market ≡ none)
    ⊎ (r.feed ≡ no_feed)
    ⊎ ((p : MarketParams) × (at : ℕ) × (r.market ≡ some p)
        × (r.feed ≡ updated at)
        × IsTrading p r.ny at r.now)

-- The price is fresh, or the adapter has no oracle.
abbrev pub IsPriced : Readings → Type 0
IsPriced r =
    (r.arc ≡ no_arc) ⊎ ((a : ArcReading) × (r.arc ≡ arc_reading a) × IsRecent a r.now r.margin)

sent_inj : (p q : Plan) (s t : Sent) → sent_start p s ≡ sent_start q t → (p ≡ q) × (s ≡ t)
sent_inj p q s t h = ground arith

-- The fees of a plan only grow when the chain says that they were short, and then by at least the shortfall; a
-- plan to be made again is never reused.
pub on_start_rejected_lem :
    (revert : Revert) (p : Plan) (now got need : ℕ)
    → (p.fees18 ≤ (on_start_rejected revert p).fees18)
      × (need ≤ got + ((on_start_rejected (insufficient_value got need) p).fees18 - p.fees18))
      × (reusable now (some (on_start_rejected replan p)) ≡ none)
unfolding on_start_rejected reusable
on_start_rejected_lem (insufficient_value g n) p now got need = ground arith
on_start_rejected_lem replan p now got need = ground arith
on_start_rejected_lem other_revert p now got need = ground arith
