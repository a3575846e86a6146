-- ===== src/Desk/Groups.antt =====
-- Grouping ready streams of one asset into payout queues (keepers/v3/desk/decide.mjs: planGroups). The
-- source runs the same loop for each asset over its streams, sorted oldest first; the sort is
-- JavaScript's own, so the list that the loop gets is a parameter.
pub mod Packing
mod Tests
use solonpad_contracts.Base.{
  List, [], drop, if◌then◌else◌, leb, length, max, min, suc, take, zero, ℕ, ◌*◌, ◌+◌, ◌/◌, ◌==◌,
  ◌∷◌,
}
use solonpad_contracts.Desk.Streams.{usd_of}

abbrev pub max_keys : ℕ
max_keys = 20

-- One ready stream: its key and the raw stock of a first-generation card.
pub record ReadyStream : Type 0 where
  pub key : ℕ
  pub per_card : ℕ

-- `need`: the minimum with its margin.
pub needed : (minimum margin_bps : ℕ) → ℕ
needed minimum margin_bps = minimum * (10_000 + margin_bps) / 10_000

-- `cap`
pub group_cap : (max_keys_per_queue : ℕ) → ℕ
group_cap m = min (max 1 m) max_keys

-- `group.reduce((t, r) => t + r.perCard, 0)`
abbrev pub total_per_card : List ReadyStream → ℕ
total_per_card [] = 0
total_per_card (r ∷ rs) = r.per_card + total_per_card rs

pub record Plan : Type 0 where
  pub opened : List (List ReadyStream)
  pub hold : List ReadyStream
  pub dust : List ReadyStream

abbrev pub nothing_planned : Plan
nothing_planned = record { opened = []; hold = []; dust = [] }

-- The loop `for (;;)` over what is left of one asset's list, on fuel.
pub pack : (fuel cap need price : ℕ) → List ReadyStream → Plan
pack zero cap need price rest = record { opened = []; hold = rest; dust = [] }
pack (suc fuel) cap need price [] = nothing_planned
pack (suc fuel) cap need price (r ∷ rest) =
    let group = take cap (r ∷ rest) in
    let after_open = pack fuel cap need price (drop cap (r ∷ rest)) in
    let after_dust = pack fuel cap need price rest in
    let opens = record after_open { opened = group ∷ after_open.opened } in
    let dusts = record after_dust { dust = r ∷ after_dust.dust } in
    if leb need (usd_of (total_per_card group) price)
    then opens
    else if length group == cap
    then dusts
    else record { opened = []; hold = group; dust = [] }

-- `planGroups` for one asset; a missing price is 0 and holds every stream.
pub plan_asset :
    (sorted : List ReadyStream) (price minimum max_keys_per_queue margin_bps : ℕ) → Plan
plan_asset sorted price minimum most margin =
    if price == 0
    then record { opened = []; hold = sorted; dust = [] }
    else pack (length sorted) (group_cap most) (needed minimum margin) price sorted
