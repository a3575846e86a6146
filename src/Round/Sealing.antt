-- ===== src/Round/Sealing.antt =====
-- The seal phases of the round keeper (keepers/v3/round/keeper.mjs: sealPhase, stakingSealPhase, watermark). The chain
-- with the transaction sender is outside this part: views of a world and a call. The journal keeps for each
-- source the first epoch above its watermark, 0 for none.
pub mod Complete
pub mod Funded
mod Tests
use solonpad_contracts.Base.{
  Bool, List, [], false, if◌then◌else◌, leb, ltb, max, not, or_else, some, suc, true, zero, ℕ, ◌&&◌,
  ◌+◌, ◌-◌, ◌/◌, ◌==◌, ◌||◌, ◌∷◌,
}
use solonpad_contracts.Base.Dict.{Dict, insert, lookup}
use solonpad_contracts.Desk.Streams.{p27}
use solonpad_contracts.Round.Batch.{EpochView, advance_watermark, sealable_epochs}

pub data Op : Type 0 where
  seal : (source epoch : ℕ) → Op
  create_entry_source : (lane : ℕ) → Op

pub record Source : Type 0 where
  pub address : ℕ
  pub first_epoch : ℕ

pub record Chain (W : Type 0) : Type 0 where
  pub epoch_view : W → (source epoch : ℕ) → EpochView
  pub lane_sealed : W → (lane epoch : ℕ) → Bool
  pub lane_credit27 : W → (lane epoch : ℕ) → ℕ
  pub carry_pending : W → (lane : ℕ) → Bool
  pub ledger_lane : W → (lane : ℕ) → Bool
  pub native_available : W → (lane : ℕ) → ℕ
  pub entry_source : W → (lane : ℕ) → ℕ
  pub simulates : W → Op → Bool
  pub call : W → Op → W × Bool

pub record State (W : Type 0) : Type 0 where
  pub world : W
  pub marks : Dict ℕ
  pub sends : List (W × Op)

-- Sealed or without budget: no seal will ever be needed.
abbrev pub is_final : EpochView → Bool
is_final v = v.is_sealed || v.budget == 0

-- An epoch of a lane that is to be sealed; `probe` asks for a simulation first.
pub record LaneEpoch : Type 0 where
  pub epoch : ℕ
  pub probe : Bool
  pub budget : ℕ

module _ {W : Type 0} (chain : Chain W) (today lookback : ℕ) where
  abbrev pub mark_of : (id : ℕ) → State W → ℕ
  mark_of id s = or_else (lookup id s.marks) 0

  abbrev pub from_of : (id first : ℕ) → State W → ℕ
  from_of id first s = max first (max (today - lookback) (mark_of id s))

  unfoldable pub send : Op → State W → State W × Bool
  send op s =
      let (w, confirmed) = chain.call s.world op in
      (record s { world = w; sends = (s.world, op) ∷ s.sends }, confirmed)

  -- The seals of a source's epochs.
  pub seal_epochs : (source : ℕ) → List ℕ → State W → State W
  seal_epochs source [] s = s
  seal_epochs source (e ∷ es) s = seal_epochs source es (send (seal source e) s).0

  -- The epochs that a source's turn seals.
  pub epochs_of : Source → State W → List ℕ
  epochs_of src s =
      sealable_epochs today (some (from_of src.address src.first_epoch s)) lookback
        (λ e. some (chain.epoch_view s.world src.address e))

  -- The watermark after a source's turn.
  pub next_mark : Source → State W → ℕ
  next_mark src s =
      advance_watermark (mark_of src.address s) (from_of src.address src.first_epoch s) today
        (λ e. is_final (chain.epoch_view s.world src.address e))

  -- A source's turn.
  pub seal_source : Source → State W → State W
  seal_source src s =
      seal_epochs src.address (epochs_of src s)
        (record s { marks = insert src.address (next_mark src s) s.marks })

  -- `sealPhase`
  pub seal_phase : List Source → State W → State W
  seal_phase [] s = s
  seal_phase (src ∷ srcs) s = seal_phase srcs (seal_source src s)

  -- The loop over the `n` epochs of a lane from `epoch` on.
  pub lane_epochs : W → (lane n epoch : ℕ) → List LaneEpoch
  lane_epochs w lane zero epoch = []
  lane_epochs w lane (suc n) epoch =
      let rest = lane_epochs w lane n (suc epoch) in
      let credit = chain.lane_credit27 w lane epoch in
      let one : LaneEpoch = record {
        epoch = epoch;
        probe = ltb credit p27;
        budget = credit / p27;
      } in
      if not (chain.lane_sealed w lane epoch) && (leb p27 credit || chain.carry_pending w lane)
      then one ∷ rest
      else rest

  abbrev pub lane_final : W → (lane epoch : ℕ) → Bool
  lane_final w lane epoch =
      chain.lane_sealed w lane epoch
      || (ltb (chain.lane_credit27 w lane epoch) p27 && not (chain.carry_pending w lane))

  abbrev pub total_budget : List LaneEpoch → ℕ
  total_budget [] = 0
  total_budget (e ∷ es) = e.budget + total_budget es

  -- The loop that seals, behind the simulation of the epochs that are probed.
  pub seal_lane_epochs : (source : ℕ) → List LaneEpoch → State W → State W
  seal_lane_epochs source [] s = s
  seal_lane_epochs source (e ∷ es) s =
      let op = seal source e.epoch in
      let sealed = (send op s).0 in
      seal_lane_epochs source es (if e.probe && not (chain.simulates s.world op) then s else sealed)

  -- The entry source of a lane, created on first need; 0 when there is none yet.
  pub lane_source : (lane : ℕ) → State W → ℕ × State W
  lane_source lane s =
      let (after, confirmed) = send (create_entry_source lane) s in
      if not (chain.entry_source s.world lane == 0)
      then (chain.entry_source s.world lane, s)
      else if confirmed
      then (chain.entry_source after.world lane, after)
      else (0, after)

  -- A lane outside the fee ledger seals only what its native balance pays for together.
  pub is_funded : W → (lane : ℕ) → List LaneEpoch → Bool
  is_funded w lane es =
      chain.ledger_lane w lane || leb (total_budget es) (chain.native_available w lane)

  abbrev pub is_empty : List LaneEpoch → Bool
  is_empty [] = true
  is_empty (e ∷ es) = false

  -- A lane's turn, with the lane's key as its source address.
  pub seal_lane : Source → State W → State W
  seal_lane lane s =
      let from = from_of lane.address lane.first_epoch s in
      let es = lane_epochs s.world lane.address (today - from) from in
      let mark =
        advance_watermark (mark_of lane.address s) from today (lane_final s.world lane.address) in
      let marked = record s { marks = insert lane.address mark s.marks } in
      let (source, made) = lane_source lane.address marked in
      let sealed = seal_lane_epochs source es made in
      if is_empty es || not (is_funded s.world lane.address es)
      then marked
      else if source == 0
      then made
      else sealed

  -- `stakingSealPhase`
  pub staking_seal_phase : List Source → State W → State W
  staking_seal_phase [] s = s
  staking_seal_phase (l ∷ ls) s = staking_seal_phase ls (seal_lane l s)
