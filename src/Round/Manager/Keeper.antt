-- ===== src/Round/Manager/Keeper.antt =====
-- The keeper's decisions against the contract's guards.
use solonpad_contracts.Base.{Option, none, some, true, ◌<◌, ◌≡◌, ◌≤◌}
use solonpad_contracts.Round.Action.{
  Action, Ctx, cancel_unsent, finalize, next_round_action, poke, request_cancel, start, submit,
}
use solonpad_contracts.Round.Manager.{
  Call, ChainRound, Env, call, do_cancel_unsent, do_finalize, do_poke, do_request_cancel, do_start,
  do_submit,
}

-- The manager call that the keeper sends for an action (`progressRound` of round/keeper.mjs); funding,
-- alerts and waiting are no calls of it.
unfoldable pub action_call : Action → Option Call
action_call cancel_unsent = some do_cancel_unsent
action_call start = some do_start
action_call finalize = some do_finalize
action_call poke = some do_poke
action_call submit = some do_submit
action_call request_cancel = some do_request_cancel
action_call _ = none

-- The chain at the call is what the keeper read, the calls of other contracts that the transaction makes go through,
-- and the adapter's answers are the ones it documents: a fill is reported only for a submitted order and delivers at least the minimum, a refund returns the
-- budget.
pub record Agrees (c : ChainRound) (ctx : Ctx) (env : Env) : Type 0 where
  pub same_time : ctx.now ≡ env.timestamp
  pub same_funded : ctx.is_funded ≡ env.is_funded
  pub same_orphan : ctx.orphan_consumed ≡ c.orphan_consumed
  pub same_result : ctx.result ≡ some env.outcome
  pub adapter_starts : env.starts ≡ true
  pub receipts : env.receipt_ok ≡ true
  pub others : env.others_go ≡ true
  pub fill :
      env.outcome ≡ 1 → (c.min_raw_out ≤ env.raw) × (env.refund ≡ 0) × (0 < c.view.submitted_at)
  pub refund : env.outcome ≡ 2 → (env.raw ≡ 0) × (env.refund ≡ c.budget18)

-- One tick of the keeper on the chain: it makes the call that it decided on, if any.
pub keeper_tick : Ctx → Env → ChainRound → Option ChainRound
keeper_tick ctx env c = elim (action_call (next_round_action c.view ctx)) [
  | none ↦ some c
  | some k ↦ call k env c
]

abbrev pub then_tick : Ctx → Env → Option ChainRound → Option ChainRound
then_tick ctx env none = none
then_tick ctx env (some c) = keeper_tick ctx env c
