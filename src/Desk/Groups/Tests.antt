-- ===== src/Desk/Groups/Tests.antt =====
-- Three streams of one asset in queues of two.
use solonpad_contracts.Base.{
  All, List, [], arith, length, refl, ℕ, ◌+◌, ◌<◌, ◌^◌, ◌∷◌, ◌≡◌, ◌≤◌, ◌⊎◌,
}
use solonpad_contracts.Desk.Streams.{usd_of}
use solonpad_contracts.Desk.Groups.{
  ReadyStream, group_cap, max_keys, needed, pack, plan_asset, total_per_card,
}
use solonpad_contracts.Desk.Groups.Packing.{
  IsWorth, plan_asset-IsWorth, plan_asset_places, times, times_opened,
}

abbrev stream_of : (key per_card : ℕ) → ReadyStream
stream_of key per_card = record { key = key; per_card = per_card }

abbrev streams : List ReadyStream
streams = stream_of 1 4 ∷ (stream_of 2 8 ∷ (stream_of 3 1 ∷ []))

plan_asset_places_example :
    let p = plan_asset streams (10 ^ 18) 10 2 1_000 in
    times_opened 3 p.opened + times 3 p.hold + times 3 p.dust ≡ 1
plan_asset_places_example = plan_asset_places streams (10 ^ 18) 10 2 1_000 3

plan_asset-IsWorth_example :
    let p = plan_asset streams (10 ^ 18) 10 2 1_000 in
    All (IsWorth (group_cap 2) (needed 10 1_000) (10 ^ 18)) p.opened
    × (group_cap 2 ≤ max_keys)
    × ((p.hold ≡ [])
        ⊎ ((length p.hold < group_cap 2)
            × (usd_of (total_per_card p.hold) (10 ^ 18) < needed 10 1_000)))
plan_asset-IsWorth_example = plan_asset-IsWorth streams (10 ^ 18) 10 2 1_000 (omega arith)

-- The first two open a queue and the third is held.
streams_run : plan_asset streams (10 ^ 18) 10 2 1_000 ≡ record {
  opened = (stream_of 1 4 ∷ (stream_of 2 8 ∷ [])) ∷ [];
  hold = stream_of 3 1 ∷ [];
  dust = [];
}
unfolding plan_asset pack group_cap needed usd_of
streams_run = refl
