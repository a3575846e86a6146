-- ===== src/Round/Sealing/Funded.antt =====
-- Which epochs of a staking lane are sealed.
use solonpad_contracts.Base.{
  All, Bool-cases, List, arith, false, if_lem, inl, inr, leb, leb→le, ltb, not, refl, suc, true,
  zero, ℕ, ◌&&◌, ◌+◌, ◌-◌, ◌/◌, ◌<◌, ◌||◌, ◌≡◌, ◌≤◌, ◌⊎◌,
}
use solonpad_contracts.Desk.Streams.{p27}
use solonpad_contracts.Round.Sealing.{
  Chain, LaneEpoch, Source, State, from_of, is_empty, is_funded, lane_epochs, mark_of, seal_lane,
  total_budget,
}

module _ {W : Type 0} (chain : Chain W) (today lookback : ℕ) where
  -- An epoch that the lane's turn may seal: over, unsealed, with a budget or a carry that a simulation must release.
  abbrev pub IsOpen : W → (lane : ℕ) → LaneEpoch → Type 0
  IsOpen w lane e =
      (chain.lane_sealed w lane e.epoch ≡ false)
      × (e.epoch < today)
      × (e.budget ≡ chain.lane_credit27 w lane e.epoch / p27)
      × ((0 < e.budget) ⊎ ((e.probe ≡ true) × (chain.carry_pending w lane ≡ true)))

  lane_epochs-IsOpen :
      (w : W) (lane n epoch : ℕ)
      → epoch + n ≤ today
      → All (IsOpen w lane) (lane_epochs chain today lookback w lane n epoch)
  unfolding lane_epochs
  lane_epochs-IsOpen w lane zero epoch h = tt
  lane_epochs-IsOpen w lane (suc n) epoch h =
      let rest = lane_epochs-IsOpen w lane n (suc epoch) (omega arith) in
      let credit = chain.lane_credit27 w lane epoch in
      if_lem (All (IsOpen w lane))
        (not (chain.lane_sealed w lane epoch) && (leb p27 credit || chain.carry_pending w lane))
        (λ good.
          let loose : chain.lane_sealed w lane epoch ≡ false = ground arith in
          elim (Bool-cases (leb p27 credit)) [
            | inl rich ↦
                let enough = leb→le _ _ rich in
                let some_budget : 0 < credit / p27 = omega (arith, enough) in
                ((loose, omega arith, refl, inl some_budget), rest)
            | inr poor ↦
                let probed : ltb credit p27 ≡ true = ground arith in
                let carried : chain.carry_pending w lane ≡ true = ground arith in
                ((loose, omega arith, refl, inr (probed, carried)), rest)
          ])
        (λ bad. rest)

  -- What a lane's turn works on: its epochs in the world that it starts in.
  abbrev pub turn_epochs : Source → State W → List LaneEpoch
  turn_epochs lane s =
      let from = from_of chain today lookback lane.address lane.first_epoch s in
      lane_epochs chain today lookback s.world lane.address (today - from) from

  seal_lane_unpaid :
      (lane : Source) (s : State W)
      → is_funded chain today lookback s.world lane.address (turn_epochs lane s) ≡ false
      → (seal_lane chain today lookback lane s).sends ≡ s.sends
  unfolding seal_lane
  seal_lane_unpaid lane s poor =
      let stop : (is_empty chain today lookback (turn_epochs lane s)
            || not (is_funded chain today lookback s.world lane.address (turn_epochs lane s)))
          ≡ true =
        ground arith in
      rw stop refl

  seal_lane_pays :
      (lane : Source) (s : State W)
      → ((seal_lane chain today lookback lane s).sends ≡ s.sends)
        ⊎ (chain.ledger_lane s.world lane.address ≡ true)
        ⊎ (total_budget chain today lookback (turn_epochs lane s)
            ≤ chain.native_available s.world lane.address)
  unfolding is_funded
  seal_lane_pays lane s =
      let paid = is_funded chain today lookback s.world lane.address (turn_epochs lane s) in
      elim (Bool-cases (chain.ledger_lane s.world lane.address)) [
        | inl ledger ↦ inr (inl ledger)
        | inr outside ↦
            elim (Bool-cases (
              leb (total_budget chain today lookback (turn_epochs lane s))
                (chain.native_available s.world lane.address))) [
                  | inl enough ↦ inr (inr (leb→le _ _ enough))
                  | inr poor ↦ inl (seal_lane_unpaid lane s (ground arith))
                ]
      ]

  -- A lane's turn sends nothing at all unless the lane is in the fee ledger or its native balance pays for all its
  -- epochs together; and each epoch that it works on is over, unsealed, and has a budget or a carry to probe.
  pub seal_lane_lem :
      (lane : Source) (s : State W)
      → lane.first_epoch ≤ today
      → mark_of chain today lookback lane.address s ≤ today
      → All (IsOpen s.world lane.address) (turn_epochs lane s)
        × (((seal_lane chain today lookback lane s).sends ≡ s.sends)
            ⊎ (chain.ledger_lane s.world lane.address ≡ true)
            ⊎ (total_budget chain today lookback (turn_epochs lane s)
                ≤ chain.native_available s.world lane.address))
  seal_lane_lem lane s begun marked =
      let from = from_of chain today lookback lane.address lane.first_epoch s in
      (
        lane_epochs-IsOpen s.world lane.address (today - from) from (omega (arith, begun, marked)),
        seal_lane_pays lane s,
      )
