-- ===== src/Demand/Requests/Stamping.antt =====
-- The loop of a merge over the asked stocks.
use solonpad_contracts.Base.{
  Bool, Bool-cases, List, Option-cases, [], arith, false, if◌then◌else◌, includes, includes_not,
  includes_or, inl, inr, refl, some, subst, sym, true, ℕ, ◌+◌, ◌<◌, ◌∙◌, ◌∷◌, ◌≡◌, ◌≢◌,
}
use solonpad_contracts.Base.Dict.{Dict, insert, lookup, lookup-insert_ne, lookup-insert_self}
use solonpad_contracts.Demand.Requests.{is_due, stamp_all}

pub stamped_ne :
    (now u v : ℕ) (due : Bool) (at : Dict ℕ)
    → v ≢ u
    → lookup v (if due then insert u now at else at) ≡ lookup v at
stamped_ne now u v true at h = lookup-insert_ne v u now at h
stamped_ne now u v false at h = refl

pub stamped_self :
    (now refresh u : ℕ) (at : Dict ℕ)
    → 0 < refresh
    → (t : ℕ) × (lookup u (if is_due now refresh (lookup u at) then insert u now at else at)
        ≡ some t)
      × (now < t + refresh)
stamped_self now refresh u at pos =
    let new = lookup-insert_self u now at in
    elim (Bool-cases (is_due now refresh (lookup u at))) [
      | inl due ↦ rw due (now, new, omega arith)
      | inr young ↦ elim (Option-cases (lookup u at)) [
        | inl missing ↦ absurd (ground arith)
        | inr (t, there) ↦ let old : now < t + refresh = ground arith in rw young (t, there, old)
      ]
    ]

pub young_kept :
    (now refresh u v t : ℕ) (at : Dict ℕ)
    → lookup v at ≡ some t
    → now < t + refresh
    → lookup v (if is_due now refresh (lookup u at) then insert u now at else at) ≡ some t
young_kept now refresh u v t at h young =
    let other = lookup-insert_ne v u now at in ground (arith, lookup-insert_ne v u now at)

pub stamp_all_others :
    (now refresh : ℕ) (us : List ℕ) (at : Dict ℕ) (v : ℕ)
    → includes us v ≡ false
    → lookup v (stamp_all now refresh us at).0 ≡ lookup v at
unfolding stamp_all
stamp_all_others now refresh [] at v h = refl
stamp_all_others now refresh (u ∷ us) at v h =
    let rest = includes us v in
    let next = if is_due now refresh (lookup u at) then insert u now at else at in
    let (differ, absent) = includes_not u v us h in
    stamp_all_others now refresh us next v absent
    ∙ stamped_ne now u v (is_due now refresh (lookup u at)) at differ

-- A stamp that is still young is kept as it is.
pub stamp_all_young :
    (now refresh : ℕ) (us : List ℕ) (at : Dict ℕ) (v t : ℕ)
    → lookup v at ≡ some t
    → now < t + refresh
    → lookup v (stamp_all now refresh us at).0 ≡ some t
unfolding stamp_all
stamp_all_young now refresh [] at v t h young = h
stamp_all_young now refresh (u ∷ us) at v t h young =
    let kept = young_kept now refresh u v t at h young in
    stamp_all_young now refresh us
      (if is_due now refresh (lookup u at) then insert u now at else at) v t kept young

-- Every asked stock has a young stamp at the end.
pub stamp_all_asked :
    (now refresh : ℕ) (us : List ℕ) (at : Dict ℕ) (v : ℕ)
    → 0 < refresh
    → includes us v ≡ true
    → (t : ℕ) × (lookup v (stamp_all now refresh us at).0 ≡ some t) × (now < t + refresh)
unfolding stamp_all
stamp_all_asked now refresh [] at v pos h = absurd (ground arith)
stamp_all_asked now refresh (u ∷ us) at v pos h =
    let next = if is_due now refresh (lookup u at) then insert u now at else at in
    elim (includes_or u v us h) [
      | inl same ↦
          let (t, here, young) = stamped_self now refresh u at pos in
          let there : lookup v next ≡ some t =
            subst (λ w. lookup w next ≡ some t) (sym same) here in
          (t, stamp_all_young now refresh us next v t there young, young)
      | inr later ↦ stamp_all_asked now refresh us next v pos later
    ]

-- When nothing was written, every asked stock had a young stamp and none changed.
pub stamp_all_pending :
    (now refresh : ℕ) (us : List ℕ) (at : Dict ℕ)
    → (stamp_all now refresh us at).1 ≡ false
    → (stamp_all now refresh us at).0 ≡ at
unfolding stamp_all
stamp_all_pending now refresh [] at h = refl
stamp_all_pending now refresh (u ∷ us) at h = elim (Bool-cases (is_due now refresh (lookup u at))) [
  | inl due ↦ absurd (ground (arith, due))
  | inr young ↦ rw young (stamp_all_pending now refresh us at (rw young at h))
]
