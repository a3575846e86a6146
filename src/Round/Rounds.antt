-- ===== src/Round/Rounds.antt =====
-- The rounds phase of the round keeper (keepers/v3/round/keeper.mjs: roundsPhase; keepers/v3/round/decide.mjs: TERMINAL,
-- ACTIVE). What a round's own progress does to the world is a function.
pub mod Counted
use solonpad_contracts.Base.{
  Bool, List, false, if◌then◌else◌, not, or_else, suc, true, zero, ℕ, ◌&&◌, ◌+◌, ◌∷◌,
}
use solonpad_contracts.Base.Dict.{Dict, insert, lookup}
use solonpad_contracts.Round.Action.{
  Status, cancelled_unsent, funded, funding, quarantined, reserved, settled, submitted,
}

-- The journal record of a round, as far as the phase reads it.
pub record RoundRec : Type 0 where
  pub terminal : Bool
  pub fees_refunded : Bool

abbrev pub no_rec : RoundRec
no_rec = record { terminal = false; fees_refunded = false }

-- `TERMINAL` and `ACTIVE`
pub is_terminal : Status → Bool
is_terminal settled = true
is_terminal cancelled_unsent = true
is_terminal _ = false

pub is_active : Status → Bool
is_active reserved = true
is_active funding = true
is_active funded = true
is_active submitted = true
is_active quarantined = true
is_active _ = false

abbrev pub is_settled : Status → Bool
is_settled settled = true
is_settled _ = false

-- The world and the rounds' records; `progressed` remembers the rounds that were handed to `progressRound`.
pub record State (W : Type 0) : Type 0 where
  pub world : W
  pub recs : Dict RoundRec
  pub progressed : List ℕ

module _ {W : Type 0} (status : W → (id : ℕ) → Status) (progress : (id : ℕ) → W → W) where
  abbrev pub rec_of : (id : ℕ) → State W → RoundRec
  rec_of id s = or_else (lookup id s.recs) no_rec

  -- Closed for good: terminal, and a settled one has its fees back.
  abbrev pub is_closed : Status → RoundRec → Bool
  is_closed st r = is_terminal st && not (is_settled st && not r.fees_refunded)

  -- A round's turn: whether it counts as active, and what follows.
  pub round_turn : (id : ℕ) → State W → ℕ × State W
  round_turn id s =
      let r = rec_of id s in
      let st = status s.world id in
      let closed = record s { recs = insert id (record r { terminal = true }) s.recs } in
      let active = if is_active st then 1 else 0 in
      let moved = record s { world = progress id s.world; progressed = id ∷ s.progressed } in
      if r.terminal then (0, s) else if is_closed st r then (0, closed) else (active, moved)

  -- The loop over the `n` rounds from `id` on.
  pub rounds_from : (n id : ℕ) → State W → ℕ × State W
  rounds_from zero id s = (0, s)
  rounds_from (suc n) id s =
      let (here, after) = round_turn id s in
      let (later, end) = rounds_from n (suc id) after in (here + later, end)

  -- `roundsPhase`, over the rounds up to the manager's last.
  pub rounds_phase : (last : ℕ) → State W → ℕ × State W
  unfolding rounds_from
  rounds_phase last s = rounds_from last 1 s
