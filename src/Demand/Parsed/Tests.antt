-- ===== src/Demand/Parsed/Tests.antt =====
-- A file of two requesters, one of which names an unknown stock.
use solonpad_contracts.Base.{[], ◌∷◌}
use solonpad_contracts.Oracle.Trigger.{Demand}
use solonpad_contracts.Demand.Requests.{Entry}

abbrev unknown_stock : Entry
unknown_stock = record { underlyings = 99 ∷ []; stamps = (99, 500) ∷ []; requested_at = 500 }

abbrev known_stock : Entry
known_stock = record { underlyings = 4 ∷ []; stamps = (4, 450) ∷ []; requested_at = 450 }
