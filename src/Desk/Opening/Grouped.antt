-- ===== src/Desk/Opening/Grouped.antt =====
-- Where the grouping of the ready streams puts each of them.
use solonpad_contracts.Desk.Groups.{ReadyStream, plan_asset}
use solonpad_contracts.Base.{
  Bool, List, [], ap, arith, false, filter, if◌then◌else◌, includes, map, refl, sym, true, ℕ, ◌++◌,
  ◌+◌, ◌==◌, ◌∙◌, ◌∷◌, ◌≡◌,
}
use solonpad_contracts.Desk.Groups.Packing.{plan_asset_places, times, times-append, times_opened}
use solonpad_contracts.Desk.Walk.{Ready}
use solonpad_contracts.Desk.Opening.{
  Group, GroupPlan, assets_of, plan_assets, plan_groups, ready_stream,
}

-- How often a key stands among ready streams, among those of one asset, and in the groups to open.
abbrev pub count : (key : ℕ) → List Ready → ℕ
count k [] = 0
count k (r ∷ rs) = (if r.key == k then 1 else 0) + count k rs

abbrev pub count_opened : (key : ℕ) → List Group → ℕ
count_opened k [] = 0
count_opened k (g ∷ gs) = times k g.streams + count_opened k gs

-- A sort that only reorders.
abbrev pub Reorders : (List Ready → List Ready) → Type 0
Reorders sort = (key : ℕ) (rs : List Ready) → count key (sort rs) ≡ count key rs

abbrev occurs : (asset : ℕ) → List ℕ → ℕ
occurs a [] = 0
occurs a (b ∷ bs) = (if b == a then 1 else 0) + occurs a bs

abbrev has_asset : (asset : ℕ) → List Ready → Bool
has_asset a [] = false
has_asset a (r ∷ rs) = let rest = has_asset a rs in if r.asset == a then true else rest

abbrev of_asset : (asset : ℕ) → List Ready → List Ready
of_asset a = filter (λ r. r.asset == a)

-- The copies of `k` in the streams of each asset of a list.
abbrev count_assets : (key : ℕ) → List ℕ → List Ready → ℕ
count_assets k [] rs = 0
count_assets k (a ∷ others) rs = count k (of_asset a rs) + count_assets k others rs

-- The same, stream by stream.
abbrev count_by : (key : ℕ) → List ℕ → List Ready → ℕ
count_by k assets [] = 0
count_by k assets (r ∷ rs) =
    (if r.key == k then occurs r.asset assets else 0) + count_by k assets rs

assets_of_lem :
    (seen : List ℕ) (rs : List Ready) (a : ℕ)
    → occurs a (assets_of seen rs)
      ≡ (if includes seen a then 0 else if has_asset a rs then 1 else 0)
unfolding assets_of
assets_of_lem seen [] a = ground arith
assets_of_lem seen (r ∷ rs) a =
    ground (arith, assets_of_lem seen rs a, assets_of_lem (r.asset ∷ seen) rs a)

count_by-none : (k : ℕ) (rs : List Ready) → count_by k [] rs ≡ 0
count_by-none k [] = refl
count_by-none k (r ∷ rs) = ground (arith, count_by-none k rs)

count_by-cons :
    (k a : ℕ) (others : List ℕ) (rs : List Ready)
    → count_by k (a ∷ others) rs ≡ count k (of_asset a rs) + count_by k others rs
count_by-cons k a others [] = refl
count_by-cons k a others (r ∷ rs) = ground (arith, count_by-cons k a others rs)

count_assets-by :
    (k : ℕ) (assets : List ℕ) (rs : List Ready) → count_assets k assets rs ≡ count_by k assets rs
count_assets-by k [] rs = sym (count_by-none k rs)
count_assets-by k (a ∷ others) rs =
    omega (arith, count_by-cons k a others rs, count_assets-by k others rs)

-- Each asset once among `assets`: every stream of `rs` counts once.
count_by-IsOnce :
    (k : ℕ) (assets : List ℕ) (rs : List Ready)
    → ((a : ℕ) → has_asset a rs ≡ true → occurs a assets ≡ 1)
    → count_by k assets rs ≡ count k rs
count_by-IsOnce k assets [] once = refl
count_by-IsOnce k assets (r ∷ rs) once =
    let here : occurs r.asset assets ≡ 1 = once r.asset (ground arith) in
    let rest = count_by-IsOnce k assets rs (λ a h. once a (ground arith)) in ground arith

count_assets_of : (k : ℕ) (rs : List Ready) → count_assets k (assets_of [] rs) rs ≡ count k rs
count_assets_of k rs =
    count_assets-by k (assets_of [] rs) rs
    ∙ count_by-IsOnce k (assets_of [] rs) rs
        (λ a h. assets_of_lem [] rs a ∙ ap (λ b. if b then 1 else 0) h)

times-map : (k : ℕ) (rs : List Ready) → times k (map ready_stream rs) ≡ count k rs
times-map k [] = refl
times-map k (r ∷ rs) = ground (arith, times-map k rs)

abbrev group_of : (asset : ℕ) → List ReadyStream → Group
group_of a g = record { asset = a; streams = g }

count_opened-map :
    (k a : ℕ) (gs : List (List ReadyStream))
    → count_opened k (map (group_of a) gs) ≡ times_opened k gs
count_opened-map k a [] = refl
count_opened-map k a (g ∷ gs) = ground (arith, count_opened-map k a gs)

count_opened-append :
    (k : ℕ) (xs ys : List Group) → count_opened k (xs ++ ys) ≡ count_opened k xs + count_opened k ys
count_opened-append k [] ys = omega arith
count_opened-append k (x ∷ xs) ys = omega (arith, count_opened-append k xs ys)

abbrev pub placed : (key : ℕ) → GroupPlan → ℕ
placed k p = count_opened k p.opened + times k p.hold + times k p.dust

module _ (sort : List Ready → List Ready) (price : ℕ → ℕ) (minimum most margin : ℕ)
    (reorders : Reorders sort) where
  plan_assets_places :
      (k : ℕ) (assets : List ℕ) (rs : List Ready)
      → placed k (plan_assets sort price minimum most margin assets rs) ≡ count_assets k assets rs
  unfolding plan_assets
  plan_assets_places k [] rs = refl
  plan_assets_places k (a ∷ others) rs =
      let sorted = map ready_stream (sort (of_asset a rs)) in
      let one = plan_asset sorted (price a) minimum most margin in
      let rest = plan_assets sort price minimum most margin others rs in
      omega (
        arith,
        plan_assets_places k others rs,
        plan_asset_places sorted (price a) minimum most margin k,
        times-map k (sort (of_asset a rs)),
        reorders k (of_asset a rs),
        count_opened-map k a one.opened,
        count_opened-append k (map (group_of a) one.opened) rest.opened,
        times-append k one.hold rest.hold,
        times-append k one.dust rest.dust,
      )

  -- With a sort that only reorders, the plan places every ready stream exactly once, over all assets: in one
  -- group to open, among those held back, or among the dust.
  pub plan_groups_places :
      (k : ℕ) (rs : List Ready)
      → placed k (plan_groups sort price minimum most margin rs) ≡ count k rs
  unfolding plan_groups
  plan_groups_places k rs = plan_assets_places k (assets_of [] rs) rs ∙ count_assets_of k rs
