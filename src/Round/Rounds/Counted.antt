-- ===== src/Round/Rounds/Counted.antt =====
-- What the rounds phase counts and moves.
use solonpad_contracts.Base.{
  Bool-cases, arith, false, inl, inr, refl, true, ℕ, ◌↔◌, ◌∷◌, ◌≡◌, ◌≤◌, ◌⊎◌,
}
use solonpad_contracts.Round.Action.{
  Status, cancelled_unsent, funded, funding, none_yet, quarantined, refunded, reserved, settled,
  submitted, unknown,
}
use solonpad_contracts.Round.Rounds.{State, is_active, is_terminal, rec_of, round_turn}

active_goes_on : (st : Status) → is_active st ≡ true → is_terminal st ≡ false
unfolding is_active is_terminal
active_goes_on reserved h = refl
active_goes_on funding h = refl
active_goes_on funded h = refl
active_goes_on submitted h = refl
active_goes_on quarantined h = refl
active_goes_on none_yet h = refl
active_goes_on refunded h = refl
active_goes_on unknown h = refl
active_goes_on settled h = ground arith
active_goes_on cancelled_unsent h = ground arith

module _ {W : Type 0} (status : W → (id : ℕ) → Status) (progress : (id : ℕ) → W → W) where
  -- An active round is moved on in its turn, whatever its record says unless it is recorded terminal, and only
  -- active rounds count; a round recorded terminal is never read or moved again.
  pub round_turn_lem :
      (id : ℕ) (s : State W)
      → let (n, t) = round_turn status progress id s in
        let r = rec_of status progress id s in
        (n ≤ 1)
        × ((n ≡ 1) ↔ ((r.terminal ≡ false) × (is_active (status s.world id) ≡ true)))
        × ((n ≡ 1 × (t.world ≡ progress id s.world) × (t.progressed ≡ id ∷ s.progressed))
            ⊎ ((n ≡ 0) × (r.terminal ≡ true) × (t ≡ s))
            ⊎ ((n ≡ 0) × (is_active (status s.world id) ≡ false)))
  unfolding round_turn
  round_turn_lem id s =
      let goes_on = active_goes_on (status s.world id) in
      let r = rec_of status progress id s in
      elim (Bool-cases r.terminal) [
        | inl closed ↦ rw closed (ground arith)
        | inr open_still ↦ elim (Bool-cases (is_active (status s.world id))) [
          | inl active ↦
              let on : is_terminal (status s.world id) ≡ false = goes_on active in
              rw (open_still, active, on) (ground arith)
          | inr idle ↦ rw (open_still, idle) (ground arith)
        ]
      ]
