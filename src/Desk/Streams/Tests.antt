-- ===== src/Desk/Streams/Tests.antt =====
-- Two cards of one stream.
use solonpad_contracts.Base.{
  [], arith, none, refl, sum, true, ◌*◌, ◌+◌, ◌<◌, ◌^◌, ◌↔◌, ◌∷◌, ◌≡◌, ◌≤◌,
}
use solonpad_contracts.Desk.Streams.{Views, day, kind0_stage, per_card_raw, ready, usdc_grid}
use solonpad_contracts.Desk.Streams.Stages.{claims, claims_within, kind0_stage_iff}

claims_within_example : sum (claims 10 7 (4 ∷ (6 ∷ []))) ≤ 7
claims_within_example = claims_within 10 7 (4 ∷ (6 ∷ [])) (omega arith)

claims_run : claims 10 7 (4 ∷ (6 ∷ [])) ≡ 2 ∷ (4 ∷ [])
unfolding per_card_raw
claims_run = refl

abbrev bought : Views
bought = record {
  now = 200_000;
  epoch = 1;
  budget = 10 ^ 18;
  is_sealed = true;
  has_source = true;
  has_entry = true;
  delivered = 5;
  purchased_raw = 5;
  available = 9;
  pending = 0;
  sealed_for = none;
  unbuyable_after_sec = 172_800;
}

kind0_stage_iff_example :
    ((kind0_stage bought ≡ ready) ↔ (
      ((1 + 1) * day ≤ bought.now)
      × (bought.is_sealed ≡ true)
      × (bought.has_entry ≡ true)
      × (bought.delivered ≤ bought.purchased_raw)
      × (bought.pending ≡ 0)
      × (bought.available < usdc_grid)
      × (0 < bought.purchased_raw)))
kind0_stage_iff_example = (kind0_stage_iff bought).0
