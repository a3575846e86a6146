-- ===== src/Demand/Awaiting/Asked.antt =====
-- When a payout goes on, and when a price is asked for.
use solonpad_contracts.Base.{Option-cases, arith, false, inl, inr, none, some, true, ◌↔◌, ◌≡◌, ◌≢◌}
use solonpad_contracts.Demand.Requests.{Requests}
use solonpad_contracts.Demand.Freshness.{ArcReading, check_arc_price, fresh}
use solonpad_contracts.Demand.Awaiting.{
  Ask, answer, asked, desk_goes, fresh_price, market_open, push_goes,
}

-- The Desk keeper goes on exactly when the oracle could be read and its price is fresh, with the margin, in the
-- policy's window.
pub desk_goes_iff :
    (a : Ask) (r : ArcReading) (file : Requests)
    → a.reading ≡ some r
    → (desk_goes (answer a file).0 ≡ true)
      ↔ (check_arc_price r a.now (some a.window) a.margin ≡ fresh)
unfolding answer
desk_goes_iff a r file e = ground arith

not_unread : (a : Ask) (file : Requests) → a.reading ≡ none → (answer a file).0 ≢ fresh_price
unfolding answer
not_unread a file unread = ground arith

pub answer-fresh :
    (a : Ask) (file : Requests)
    → (answer a file).0 ≡ fresh_price
    → (r : ArcReading) × (a.reading ≡ some r)
      × (check_arc_price r a.now (some a.window) a.margin ≡ fresh)
unfolding answer
answer-fresh a file h = elim (Option-cases a.reading) [
  | inl unread ↦ absurd (not_unread a file unread h)
  | inr (r, read) ↦ (r, read, ground arith)
]

desk_waits_unread :
    (a : Ask) (file : Requests) → a.reading ≡ none → desk_goes (answer a file).0 ≡ false
unfolding answer
desk_waits_unread a file e = ground arith

-- A demand is left in the file only by a live keeper with a status directory, for a price that an update can
-- help, in an open market; then neither keeper pays out. Without a fresh price the file is changed in no other
-- case.
pub answer-asked :
    (a : Ask) (file : Requests)
    → (answer a file).1 ≢ file
    → (answer a file).0 ≢ fresh_price
    → ((answer a file).0 ≡ asked)
      × (a.execute ≡ true)
      × (a.has_dir ≡ true)
      × (market_open a.market a.ny ≡ true)
      × (desk_goes (answer a file).0 ≡ false)
      × (push_goes (answer a file).0 ≡ false)
unfolding answer
answer-asked a file changed stale = ground arith
