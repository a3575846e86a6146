-- ===== src/Ingress/Burns/Once.antt =====
-- What is burned and minted.
use solonpad_contracts.Base.{
  All, Bool, [], if_lem, if◌then◌else◌, refl, true, ℕ, ◌*◌, ◌<◌, ◌∷◌, ◌≡◌, ◌≤◌,
}
use solonpad_contracts.Base.Dict.{Dict}
use solonpad_contracts.Ingress.Buyback.{VaultPlan, below_card, mint, nothing, ops_shortfall, sweep}
use solonpad_contracts.Ingress.Buyback.Spending.{desk_plan_mint}
use solonpad_contracts.Ingress.Burns.{
  BoughtState, Chain, Op, State, burn_each, burn_pending, burned, mint_available, on_bought,
  on_plan, other_state, pending, plan_in, run_burn_and_desk, send, sweep_overflow,
}

module _ {W : Type 0} (chain : Chain W) where
  -- A burn of a lot that waits to be burned; a mint that the pending tokens pay for, below both caps.
  abbrev pub IsDue : W × Op → Type 0
  IsDue (w, burn_pending id) = chain.bought_state w id ≡ pending
  IsDue (w, mint_available cards) =
      (0 < cards)
      × (cards ≤ 20)
      × (cards * chain.solon_per_desk w ≤ chain.pending_solon w)
      × (chain.protocol_minted w < 1_000)
      × (chain.total_supply w < chain.max_supply w)
  IsDue (w, sweep_overflow) = Unit

  abbrev Dues : State W → Type 0
  Dues s = All IsDue s.sends

  on_bought-Dues :
      (id : ℕ) (b : BoughtState) (s : State W)
      → chain.bought_state s.world id ≡ b
      → Dues s
      → Dues (on_bought chain id b s)
  unfolding send
  on_bought-Dues id pending s h d = (h, d)
  on_bought-Dues id burned s h d = d
  on_bought-Dues id other_state s h d = d

  burn_each-Dues : (burns : Dict Bool) (s : State W) → Dues s → Dues (burn_each chain burns s)
  unfolding burn_each
  burn_each-Dues [] s d = d
  burn_each-Dues ((id, is_burned) ∷ burns) s d =
      burn_each-Dues burns
        (if is_burned then s else on_bought chain id (chain.bought_state s.world id) s)
        (if_lem Dues is_burned (λ over. d)
          (λ live. on_bought-Dues id (chain.bought_state s.world id) s refl d))

  on_plan-Dues :
      (plan : VaultPlan) (s : State W)
      → plan_in chain s.world ≡ plan
      → Dues s
      → Dues (on_plan chain plan s)
  unfolding send
  on_plan-Dues sweep s h d = (tt, d)
  on_plan-Dues nothing s h d = d
  on_plan-Dues ops_shortfall s h d = d
  on_plan-Dues below_card s h d = d
  on_plan-Dues (mint cards) s h d =
      let w = s.world in
      let good =
        desk_plan_mint (chain.pending_solon w) (chain.solon_per_desk w) (chain.protocol_minted w)
          1_000 (chain.total_supply w) (chain.max_supply w) true h in
      ((good.0, good.1, good.2, good.3, good.4), d)

  -- Whatever the chain answers, only lots that wait to be burned are burned, and at most twenty cards are minted that
  -- the pending tokens pay for, below the caps of the protocol and of the supply.
  pub run_burn_and_desk-IsDue :
      (s : State W) → All IsDue s.sends → All IsDue (run_burn_and_desk chain s).sends
  unfolding run_burn_and_desk
  run_burn_and_desk-IsDue s d =
      let after = burn_each chain s.burns s in
      let burnt = burn_each-Dues s.burns s d in
      if_lem Dues chain.has_desk_vault
        (λ given. on_plan-Dues (plan_in chain after.world) after refl burnt) (λ missing. burnt)
