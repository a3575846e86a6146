-- ===== src/Ingress/Burns.antt =====
-- Burning what the buybacks bought, and the protocol's desk cards (keepers/v3/ingress/keeper.mjs: runBurnAndDesk). The
-- chain with the transaction sender is outside this part, as a record of readings and a call. The plan's limit
-- of protocol cards and the surcharge keep the source's defaults, 1000 and available.
pub mod Once
use solonpad_contracts.Base.{Bool, List, [], if◌then◌else◌, true, ℕ, ◌∷◌}
use solonpad_contracts.Base.Dict.{Dict, insert}
use solonpad_contracts.Ingress.Buyback.{VaultPlan, desk_plan, mint, sweep}

-- The vault's state of a bought lot.
pub data BoughtState : Type 0 where
  pending burned other_state : BoughtState

pub data Op : Type 0 where
  burn_pending : (id : ℕ) → Op
  mint_available : (cards : ℕ) → Op
  sweep_overflow : Op

pub record Chain (W : Type 0) : Type 0 where
  pub bought_state : W → (id : ℕ) → BoughtState
  pub has_desk_vault : Bool
  pub pending_solon : W → ℕ
  pub solon_per_desk : W → ℕ
  pub protocol_minted : W → ℕ
  pub total_supply : W → ℕ
  pub max_supply : W → ℕ
  pub call : W → Op → W × Bool

-- The journal record `burns`: whether each lot is known to be burned.
pub record State (W : Type 0) : Type 0 where
  pub world : W
  pub burns : Dict Bool
  pub sends : List (W × Op)

module _ {W : Type 0} (chain : Chain W) where
  pub send : Op → State W → State W
  send op s = record s { world = (chain.call s.world op).0; sends = (s.world, op) ∷ s.sends }

  abbrev pub on_bought : (id : ℕ) → BoughtState → State W → State W
  on_bought id pending s = send (burn_pending id) s
  on_bought id burned s = record s { burns = insert id true s.burns }
  on_bought id other_state s = s

  pub burn_each : Dict Bool → State W → State W
  burn_each [] s = s
  burn_each ((id, is_burned) ∷ burns) s =
      let turn = on_bought id (chain.bought_state s.world id) s in
      burn_each burns (if is_burned then s else turn)

  abbrev pub plan_in : W → VaultPlan
  plan_in w =
      desk_plan (chain.pending_solon w) (chain.solon_per_desk w) (chain.protocol_minted w) 1_000
        (chain.total_supply w) (chain.max_supply w) true

  abbrev pub on_plan : VaultPlan → State W → State W
  on_plan (mint cards) s = send (mint_available cards) s
  on_plan sweep s = send sweep_overflow s
  on_plan _ s = s

  -- `runBurnAndDesk`
  pub run_burn_and_desk : State W → State W
  run_burn_and_desk s =
      let after = burn_each s.burns s in
      if chain.has_desk_vault then on_plan (plan_in after.world) after else after
