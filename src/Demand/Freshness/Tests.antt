-- ===== src/Demand/Freshness/Tests.antt =====
-- An old observation of a live asset.
use solonpad_contracts.Base.{Option, none, refl, ℕ, ◌+◌, ◌-◌, ◌<◌, ◌↔◌, ◌≡◌, ◌≢◌, ◌≤◌, ◌⊎◌}
use solonpad_contracts.Demand.Freshness.{
  ArcReading, check_arc_price, demandable, fresh, status_live, status_stale,
}
use solonpad_contracts.Demand.Freshness.Acting.{check_arc_price-fresh, check_arc_price_demandable}

abbrev old : ArcReading
old = record {
  status = 2;
  observed_at = 1_000;
  relayed_price18 = 50;
  price_usd18 = 50;
  max_age = 900;
  underlying = 4;
}

old_demandable : check_arc_price old 5_000 none 120 ≡ demandable
unfolding check_arc_price
old_demandable = refl

check_arc_price_demandable_example :
    (0 < old.relayed_price18)
    × ((old.status ≡ status_live)
        ⊎ ((old.status ≡ status_stale)
            × ((old.observed_at ≡ 0) ⊎ (old.observed_at + old.max_age < 5_000))))
check_arc_price_demandable_example = check_arc_price_demandable old 5_000 120 none old_demandable

check_arc_price-fresh_example : (check_arc_price old 1_200 none 120 ≡ fresh) ↔ (
    (0 < old.price_usd18)
    × (0 < old.observed_at)
    × (1_200 - old.observed_at + 120 ≤ 900)
    × ((old.status ≡ status_live) ⊎ (◌≢◌ {A = Option ℕ} none none)))
check_arc_price-fresh_example = check_arc_price-fresh old 1_200 120 none
