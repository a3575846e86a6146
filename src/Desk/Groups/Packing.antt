-- ===== src/Desk/Groups/Packing.antt =====
-- What the queues contain.
use solonpad_contracts.Base.{
  All, Bool-cases, List, [], ap, arith, drop, false, if◌then◌else◌, inl, inr, leb, leb→le, length,
  length-drop, length-take, not_leb→lt, refl, suc, sym, take, take-append-drop, zero, ℕ, ◌++◌, ◌+◌,
  ◌<◌, ◌==◌, ◌∙◌, ◌∷◌, ◌≡◌, ◌≢◌, ◌≤◌, ◌⊎◌,
}
use solonpad_contracts.Desk.Streams.{usd_of}
use solonpad_contracts.Desk.Groups.{
  ReadyStream, group_cap, max_keys, needed, pack, plan_asset, total_per_card,
}

-- How often a stream with that key stands in the list.
abbrev pub times : ℕ → List ReadyStream → ℕ
times k [] = 0
times k (r ∷ rs) = (if r.key == k then 1 else 0) + times k rs

abbrev pub times_opened : ℕ → List (List ReadyStream) → ℕ
times_opened k [] = 0
times_opened k (g ∷ gs) = times k g + times_opened k gs

pub times-append : (k : ℕ) (xs ys : List ReadyStream) → times k (xs ++ ys) ≡ times k xs + times k ys
times-append k [] ys = omega arith
times-append k (x ∷ xs) ys = omega (arith, times-append k xs ys)

times-take-drop :
    (k n : ℕ) (xs : List ReadyStream) → times k (take n xs) + times k (drop n xs) ≡ times k xs
times-take-drop k n xs =
    sym (times-append k (take n xs) (drop n xs)) ∙ ap (times k) (take-append-drop n xs)

-- A group shorter than the cap is the whole rest.
short_take : (n : ℕ) (xs : List ReadyStream) → length (take n xs) ≢ n → take n xs ≡ xs
short_take zero xs h = absurd (h refl)
short_take (suc n) [] h = refl
short_take (suc n) (x ∷ xs) h = ap (λ ys. x ∷ ys) (short_take n xs (λ e. h (ap suc e)))

pack-times :
    (fuel cap need price k : ℕ) (rest : List ReadyStream)
    → let p = pack fuel cap need price rest in
      times_opened k p.opened + times k p.hold + times k p.dust ≡ times k rest
unfolding pack
pack-times zero cap need price k rest = omega arith
pack-times (suc fuel) cap need price k [] = refl
pack-times (suc fuel) cap need price k (r ∷ rest) =
    let all = r ∷ rest in
    elim (Bool-cases (leb need (usd_of (total_per_card (take cap all)) price))) [
      | inl worth ↦ rw worth (
          omega (arith, pack-times fuel cap need price k (drop cap all), times-take-drop k cap all))
      | inr poor ↦ elim (Bool-cases (length (take cap all) == cap)) [
        | inl full ↦ rw (poor, full) (omega (arith, pack-times fuel cap need price k rest))
        | inr short ↦
            let whole = short_take cap all (ground arith) in
            rw (poor, short) (omega (arith, ap (times k) whole))
      ]
    ]

-- Every ready stream of an asset is placed exactly once: in an open queue, held back, or given up as dust.
pub plan_asset_places :
    (sorted : List ReadyStream) (price minimum most margin k : ℕ)
    → let p = plan_asset sorted price minimum most margin in
      times_opened k p.opened + times k p.hold + times k p.dust ≡ times k sorted
unfolding plan_asset
plan_asset_places sorted price minimum most margin k =
    let packed =
      pack-times (length sorted) (group_cap most) (needed minimum margin) price k sorted in
    elim (Bool-cases (price == 0)) [
      | inl unpriced ↦ rw unpriced (omega arith)
      | inr priced ↦ rw priced packed
    ]

-- What is said of an open queue: it has a stream, at most `cap`, and is worth the need.
abbrev pub IsWorth : (cap need price : ℕ) → List ReadyStream → Type 0
IsWorth cap need price g =
    (0 < length g) × (length g ≤ cap) × (need ≤ usd_of (total_per_card g) price)

pack-IsWorth :
    (fuel cap need price : ℕ) (rest : List ReadyStream)
    → 0 < cap
    → length rest ≤ fuel
    → let p = pack fuel cap need price rest in
      All (IsWorth cap need price) p.opened
      × ((p.hold ≡ []) ⊎ ((length p.hold < cap) × (usd_of (total_per_card p.hold) price < need)))
unfolding pack
pack-IsWorth zero cap need price [] c f = (tt, inl refl)
pack-IsWorth zero cap need price (r ∷ rest) c f = absurd (omega arith)
pack-IsWorth (suc fuel) cap need price [] c f = (tt, inl refl)
pack-IsWorth (suc fuel) cap need price (r ∷ rest) c f =
    let all = r ∷ rest in
    let size = length-take cap all in
    let left = length-drop cap all in
    elim (Bool-cases (leb need (usd_of (total_per_card (take cap all)) price))) [
      | inl worth ↦
          let (opened, held) = pack-IsWorth fuel cap need price (drop cap all) c (omega arith) in
          rw worth (((omega arith, omega arith, leb→le _ _ worth), opened), held)
      | inr poor ↦ elim (Bool-cases (length (take cap all) == cap)) [
        | inl full ↦
            let (opened, held) = pack-IsWorth fuel cap need price rest c (omega arith) in
            rw (poor, full) (opened, held)
        | inr short ↦ rw (poor, short) (tt, inr (ground arith, not_leb→lt _ _ poor))
      ]
    ]

-- At a known price every open queue holds between one stream and the queue's cap, at most twenty, and is
-- worth the minimum with its margin; what is held back is smaller than a queue and not worth it.
pub plan_asset-IsWorth :
    (sorted : List ReadyStream) (price minimum most margin : ℕ)
    → 0 < price
    → let p = plan_asset sorted price minimum most margin in
      All (IsWorth (group_cap most) (needed minimum margin) price) p.opened
      × (group_cap most ≤ max_keys)
      × ((p.hold ≡ [])
          ⊎ ((length p.hold < group_cap most)
              × (usd_of (total_per_card p.hold) price < needed minimum margin)))
unfolding plan_asset group_cap
plan_asset-IsWorth sorted price minimum most margin pos =
    let priced : (price == 0) ≡ false = ground arith in
    let (opened, held) =
      pack-IsWorth (length sorted) (group_cap most) (needed minimum margin) price sorted
        (omega arith) (omega arith) in
    rw priced (opened, omega arith, held)
