-- ===== src/Health/Limiter/Spaced.antt =====
-- The alerts of one key are spaced.
use solonpad_contracts.Base.{
  All, Bool-cases, List, [], arith, false, inl, inr, ltb, not_ltb→le, some, subst, sym, ℕ, ℕ_cases,
  ◌+◌, ◌-◌, ◌<◌, ◌∙◌, ◌∷◌, ◌≡◌, ◌≢◌, ◌≤◌, ◌⊎◌,
}
use solonpad_contracts.Base.Dict.{Dict, insert, lookup, lookup-insert_ne, lookup-insert_self}
use solonpad_contracts.Health.Limiter.{Raised, alert, too_soon, tried_of}

-- Every alert of the key in the list is at least `repeat` after `from`.
abbrev pub IsAfter : (repeat key from : ℕ) → Raised → Type 0
IsAfter repeat key from r = (r.key ≢ key) ⊎ (from + repeat ≤ r.at)

-- In the list, alerts of one key are at least `repeat` apart.
abbrev pub IsSpaced : (repeat : ℕ) → List Raised → Type 0
IsSpaced repeat [] = Unit
IsSpaced repeat (r ∷ rs) = All (IsAfter repeat r.key r.at) rs × IsSpaced repeat rs

later-IsAfter :
    (repeat key from at : ℕ) (rs : List Raised)
    → from ≤ at
    → All (IsAfter repeat key at) rs
    → All (IsAfter repeat key from) rs
later-IsAfter repeat key from at [] le h = tt
later-IsAfter repeat key from at (r ∷ rs) le h = (
  elim h.0 [ inl other ↦ inl other | inr after ↦ inr (omega (arith, le, after)) ],
  later-IsAfter repeat key from at rs le h.1,
)

first_spaced :
    (repeat key from : ℕ) (r : Raised) (last : Dict ℕ)
    → 0 < repeat
    → lookup key last ≡ some from
    → r.key ≡ key
    → too_soon repeat r.at (lookup r.key last) ≡ false
    → from + repeat ≤ r.at
first_spaced repeat key from r last pos h same late =
    let found : lookup r.key last ≡ some from =
      subst (λ k. lookup k last ≡ some from) (sym same) h in
    let long : ltb (r.at - from) repeat ≡ false =
      subst (λ o. too_soon repeat r.at o ≡ false) found late in
    let enough = not_ltb→le _ _ long in omega (arith, enough, pos)

tried-IsAfter :
    (repeat key from : ℕ) (rs : List Raised) (last : Dict ℕ)
    → 0 < repeat
    → lookup key last ≡ some from
    → All (IsAfter repeat key from) (tried_of repeat rs last)
unfolding tried_of alert
tried-IsAfter repeat key from [] last pos h = tt
tried-IsAfter repeat key from (r ∷ rs) last pos h =
    elim (Bool-cases (too_soon repeat r.at (lookup r.key last))) [
      | inl soon ↦ rw soon (tried-IsAfter repeat key from rs last pos h)
      | inr late ↦
          let after = insert r.key r.at last in
          elim (ℕ_cases r.key key) [
            | inl same ↦
                let spaced : from + repeat ≤ r.at =
                  first_spaced repeat key from r last pos h same late in
                let kept : lookup key after ≡ some r.at =
                  subst (λ k. lookup k after ≡ some r.at) same
                    (lookup-insert_self r.key r.at last) in
                rw late (
                  inr spaced,
                  later-IsAfter repeat key from r.at (tried_of repeat rs after) (omega arith)
                      (tried-IsAfter repeat key r.at rs after pos kept),
                )
            | inr other ↦
                let kept : lookup key after ≡ some from =
                  lookup-insert_ne key r.key r.at last (λ e. other (sym e)) ∙ h in
                rw late (inl other, tried-IsAfter repeat key from rs after pos kept)
          ]
    ]

-- Alerts of one key that are tried are at least the repeat time apart, whatever their deliveries come to.
pub tried_of-IsSpaced :
    (repeat : ℕ) (rs : List Raised) (last : Dict ℕ)
    → 0 < repeat
    → IsSpaced repeat (tried_of repeat rs last)
unfolding tried_of alert
tried_of-IsSpaced repeat [] last pos = tt
tried_of-IsSpaced repeat (r ∷ rs) last pos =
    let after = insert r.key r.at last in
    elim (Bool-cases (too_soon repeat r.at (lookup r.key last))) [
      | inl soon ↦ rw soon (tried_of-IsSpaced repeat rs last pos)
      | inr late ↦ rw late (
        tried-IsAfter repeat r.key r.at rs after pos (lookup-insert_self r.key r.at last),
        tried_of-IsSpaced repeat rs after pos,
      )
    ]
