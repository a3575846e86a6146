-- ===== src/Demand/Requests/Stamps.antt =====
-- What a merge does to the stamps in the file.
use solonpad_contracts.Base.{
  Bool-cases, List, Option, [], ap, arith, false, if◌then◌else◌, includes, inl, inr, leb, none,
  refl, some, subst, true, ℕ, ◌+◌, ◌<◌, ◌==◌, ◌∙◌, ◌∷◌, ◌≡◌, ◌≢◌, ◌⊎◌,
}
use solonpad_contracts.Base.Dict.{Dict, insert, lookup, lookup-insert_ne}
use solonpad_contracts.Demand.Requests.{
  Requests, merge_request, mine_of, prune, prune_stamps, stamp_all, summarize,
}
use solonpad_contracts.Demand.Requests.Stamping.{
  stamp_all_asked, stamp_all_others, stamp_all_pending,
}

-- The stamp of a stock by a requester.
abbrev pub stamp_of : (requester u : ℕ) → Requests → Option ℕ
stamp_of r u body = lookup u (mine_of (lookup r body))

-- An old stamp counts as none.
abbrev pub unexpired : (now ttl : ℕ) → Option ℕ → Option ℕ
unexpired now ttl none = none
unexpired now ttl (some t) = if leb now (t + ttl) then some t else none

-- The keys of a dictionary are different, as those of a JavaScript object are.
abbrev pub IsDict : {V : Type 0} → Dict V → Type 0
IsDict [] = Unit
IsDict ((k, v) ∷ d) = (lookup k d ≡ none) × IsDict d

abbrev pub AllDicts : Requests → Type 0
AllDicts [] = Unit
AllDicts ((k, d) ∷ rs) = IsDict d × AllDicts rs

lookup-prune_stamps-none :
    (now ttl u : ℕ) (d : Dict ℕ) → lookup u d ≡ none → lookup u (prune_stamps now ttl d) ≡ none
unfolding prune_stamps
lookup-prune_stamps-none now ttl u [] h = refl
lookup-prune_stamps-none now ttl u ((k, t) ∷ d) h =
    ground (arith, lookup-prune_stamps-none now ttl u d)

lookup-prune_stamps :
    (now ttl u : ℕ) (d : Dict ℕ)
    → IsDict d
    → lookup u (prune_stamps now ttl d) ≡ unexpired now ttl (lookup u d)
unfolding prune_stamps
lookup-prune_stamps now ttl u [] h = refl
lookup-prune_stamps now ttl u ((k, t) ∷ d) (fresh, h) =
    let gone = lookup-prune_stamps-none now ttl u d in
    ground (arith, lookup-prune_stamps now ttl u d h)

stamp_of-prune :
    (now ttl r u : ℕ) (body : Requests)
    → AllDicts body
    → stamp_of r u (prune now ttl body) ≡ unexpired now ttl (stamp_of r u body)
unfolding prune
stamp_of-prune now ttl r u [] h = refl
stamp_of-prune now ttl r u ((k, d) ∷ rs) (hd, hs) =
    let here = lookup-prune_stamps now ttl u d hd in
    let there = stamp_of-prune now ttl r u rs hs in ground arith

-- Dropping requesters without stamps loses no stamp.
stamp_of-summarize-none :
    (r : ℕ) (rs : Requests) → lookup r rs ≡ none → lookup r (summarize rs) ≡ none
unfolding summarize
stamp_of-summarize-none r [] h = refl
stamp_of-summarize-none r ((k, d) ∷ rs) h = ground (arith, stamp_of-summarize-none r rs)

stamp_of-summarize :
    (r u : ℕ) (rs : Requests) → IsDict rs → stamp_of r u (summarize rs) ≡ stamp_of r u rs
unfolding summarize
stamp_of-summarize r u [] h = refl
stamp_of-summarize r u ((k, []) ∷ rs) (fresh, h) =
    let gone = stamp_of-summarize-none r rs in ground (arith, stamp_of-summarize r u rs h)
stamp_of-summarize r u ((k, s ∷ d) ∷ rs) (fresh, h) = ground (arith, stamp_of-summarize r u rs h)

lookup-prune-none :
    (now ttl k : ℕ) (rs : Requests) → lookup k rs ≡ none → lookup k (prune now ttl rs) ≡ none
unfolding prune
lookup-prune-none now ttl k [] h = refl
lookup-prune-none now ttl k ((j, d) ∷ rs) h = ground (arith, lookup-prune-none now ttl k rs)

inserted :
    (k r u : ℕ) (mine : Dict ℕ) (rs : Requests)
    → stamp_of r u (insert k mine rs) ≡ lookup u (if k == r then mine else mine_of (lookup r rs))
inserted k r u mine [] = ground arith
inserted k r u mine ((j, d) ∷ rs) = ground (arith, inserted k r u mine rs)

kept_stamp :
    (now refresh : ℕ) (us : List ℕ) (mine : Dict ℕ) (u : ℕ)
    → (includes us u ≡ false) ⊎ ((stamp_all now refresh us mine).1 ≡ false)
    → lookup u (stamp_all now refresh us mine).0 ≡ lookup u mine
kept_stamp now refresh us mine u (inl absent) = stamp_all_others now refresh us mine u absent
kept_stamp now refresh us mine u (inr pending) =
    ap (lookup u) (stamp_all_pending now refresh us mine pending)

IsDict-prune : (now ttl : ℕ) (rs : Requests) → IsDict rs → IsDict (prune now ttl rs)
unfolding prune
IsDict-prune now ttl [] h = tt
IsDict-prune now ttl ((k, d) ∷ rs) (fresh, h) =
    (lookup-prune-none now ttl k rs fresh, IsDict-prune now ttl rs h)

IsDict-insert : {V : Type 0} (k : ℕ) (v : V) (d : Dict V) → IsDict d → IsDict (insert k v d)
IsDict-insert k v [] h = (refl, tt)
IsDict-insert k v ((j, w) ∷ d) (fresh, h) = elim (Bool-cases (j == k)) [
  | inl same ↦ let eq : j ≡ k = ground arith in rw same (subst (λ i. lookup i d ≡ none) eq fresh, h)
  | inr other ↦
      let ne : j ≢ k = ground arith in
      rw other (lookup-insert_ne j k v d ne ∙ fresh, IsDict-insert k v d h)
]

merged_stamp :
    (now refresh ttl requester : ℕ) (us : List ℕ) (body : Requests) (r u : ℕ)
    → IsDict body
    → stamp_of r u (merge_request now refresh ttl requester us body).0
      ≡ lookup u (
          if requester == r
          then (stamp_all now refresh us (mine_of (lookup requester (prune now ttl body)))).0
          else mine_of (lookup r (prune now ttl body)))
unfolding merge_request
merged_stamp now refresh ttl requester us body r u h =
    let reqs = prune now ttl body in
    let mine = (stamp_all now refresh us (mine_of (lookup requester reqs))).0 in
    let whole = IsDict-insert requester mine reqs (IsDict-prune now ttl body h) in
    stamp_of-summarize r u (insert requester mine reqs) whole ∙ inserted requester r u mine reqs

-- After a merge every stock that was asked for has a stamp of its requester that is younger than the refresh
-- time: its own request, or one that was still waiting.
pub merge_request_stamps :
    (now refresh ttl requester u : ℕ) (us : List ℕ) (body : Requests)
    → 0 < refresh
    → IsDict body
    → includes us u ≡ true
    → (t : ℕ) × (stamp_of requester u (merge_request now refresh ttl requester us body).0 ≡ some t)
      × (now < t + refresh)
merge_request_stamps now refresh ttl requester u us body pos h asked =
    let mine = mine_of (lookup requester (prune now ttl body)) in
    let (t, here, young) = stamp_all_asked now refresh us mine u pos asked in
    let self : (requester == requester) ≡ true = ground arith in
    let merged = merged_stamp now refresh ttl requester us body requester u h in
    (t, merged ∙ rw self here, young)

-- A merge changes no other stamp: those of other requesters, those of stocks not asked for, and, when its
-- status is pending, all of them stay as they were, less the expired ones.
pub merge_request_keeps :
    (now refresh ttl requester r u : ℕ) (us : List ℕ) (body : Requests)
    → IsDict body
    → AllDicts body
    → (requester ≢ r)
      ⊎ ((includes us u ≡ false) ⊎ ((merge_request now refresh ttl requester us body).1 ≡ false))
    → stamp_of r u (merge_request now refresh ttl requester us body).0
      ≡ unexpired now ttl (stamp_of r u body)
unfolding merge_request
merge_request_keeps now refresh ttl requester r u us body h hs why =
    let mine = mine_of (lookup requester (prune now ttl body)) in
    let merged = merged_stamp now refresh ttl requester us body r u h in
    let pruned = stamp_of-prune now ttl r u body hs in
    elim (Bool-cases (requester == r)) [
      | inr other ↦ merged ∙ rw other pruned
      | inl same ↦
          let eq : requester ≡ r = ground arith in
          let kept : lookup u (stamp_all now refresh us mine).0 ≡ lookup u mine =
            kept_stamp now refresh us mine u (ground arith) in
          let mine_eq : lookup u mine ≡ stamp_of r u (prune now ttl body) =
            ap (λ k. lookup u (mine_of (lookup k (prune now ttl body)))) eq in
          merged ∙ rw same (kept ∙ mine_eq ∙ pruned)
    ]
