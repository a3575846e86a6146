-- ===== src/Round/Manager/Life.antt =====
-- What holds of a round at every moment of its life on chain.
use solonpad_contracts.Base.{arith, false, none, some, true, ◌<◌, ◌≡◌, ◌≢◌, ◌⊎◌}
use solonpad_contracts.Round.Action.{
  cancelled_unsent, funded, funding, quarantined, refunded, reserved, settled, submitted,
}
use solonpad_contracts.Round.Manager.{
  Call, ChainRound, Env, call, cancel_unsent_round, do_cancel_unsent, do_finalize, do_poke,
  do_request_cancel, do_start, do_submit, finalize_round, poke_round, request_cancel_round, settle,
  start_round, submit_round,
}

-- A round as `reserveBatch` leaves it.
pub record IsNew (c : ChainRound) : Type 0 where
  pub is_reserved : c.view.status ≡ reserved
  pub not_submitted : c.view.submitted_at ≡ 0
  pub not_cancelled : c.view.cancel_requested ≡ false
  pub no_orphan : c.orphan_consumed ≡ false

-- Any number of calls, each at a time after 1970, in any order and by anyone.
pub data Reach (s : ChainRound) : ChainRound → Type 0 where
  here : Reach s s
  next :
      {t u : ChainRound} (k : Call) (env : Env)
      → 0 < env.timestamp
      → Reach s t
      → call k env t ≡ some u
      → Reach s u

pub record IsValid (c : ChainRound) : Type 0 where
  pub submitted_once :
      (c.view.status ≡ submitted) ⊎ (c.view.status ≡ settled) → 0 < c.view.submitted_at
  pub unsent_early :
      (c.view.status ≡ reserved)
        ⊎ (c.view.status ≡ funding)
        ⊎ (c.view.status ≡ funded)
        ⊎ (c.view.status ≡ cancelled_unsent)
      → c.view.submitted_at ≡ 0
  pub cancel_late : c.view.cancel_requested ≡ true → 0 < c.view.submitted_at
  pub orphan_late :
      c.orphan_consumed ≡ true → (c.view.status ≡ refunded) × (0 < c.view.submitted_at)
  pub never_quarantined : c.view.status ≢ quarantined

call-IsValid :
    (k : Call) (env : Env) (c : ChainRound) {d : ChainRound}
    → 0 < env.timestamp
    → IsValid c
    → call k env c ≡ some d
    → IsValid d
unfolding call start_round poke_round submit_round cancel_unsent_round request_cancel_round
    finalize_round settle
call-IsValid do_start env c t v h = ground arith
call-IsValid do_poke env c t v h = ground arith
call-IsValid do_submit env c t v h = ground arith
call-IsValid do_cancel_unsent env c t v h = ground arith
call-IsValid do_request_cancel env c t v h = ground arith
call-IsValid do_finalize env c t v h = ground arith

new-IsValid : (c : ChainRound) → IsNew c → IsValid c
new-IsValid c n = ground arith

-- However the calls on a new round are ordered and whoever makes them: a submitted or settled round has
-- a submission time and one still before its submission has none, a cancel was requested only after
-- the submission, a late fill is consumed only for a refunded round that had been submitted, and the
-- round is never quarantined.
pub Reach-IsValid : {c d : ChainRound} → IsNew c → Reach c d → IsValid d
Reach-IsValid {c} n here = new-IsValid c n
Reach-IsValid n (next {t} k env pos r e) = call-IsValid k env t pos (Reach-IsValid n r) e

-- A settled round and one cancelled before its start are final: every call on them reverts.
pub call_final :
    (k : Call) (env : Env) (c : ChainRound)
    → (c.view.status ≡ settled) ⊎ (c.view.status ≡ cancelled_unsent)
    → call k env c ≡ none
unfolding call start_round poke_round submit_round cancel_unsent_round request_cancel_round
    finalize_round settle
call_final do_start env c h = ground arith
call_final do_poke env c h = ground arith
call_final do_submit env c h = ground arith
call_final do_cancel_unsent env c h = ground arith
call_final do_request_cancel env c h = ground arith
call_final do_finalize env c h = ground arith

-- A call never changes the order's amounts or its deadline, and once a round is refunded the only call
-- that goes through consumes a fill that arrived late, once.
pub call_refunded :
    (k : Call) (env : Env) (c : ChainRound) {d : ChainRound}
    → c.view.status ≡ refunded
    → call k env c ≡ some d
    → (k ≡ do_finalize)
      × (env.outcome ≡ 1)
      × (c.orphan_consumed ≡ false)
      × (d ≡ record c { orphan_consumed = true })
unfolding call start_round poke_round submit_round cancel_unsent_round request_cancel_round
    finalize_round settle
call_refunded do_start env c s h = ground arith
call_refunded do_poke env c s h = ground arith
call_refunded do_submit env c s h = ground arith
call_refunded do_cancel_unsent env c s h = ground arith
call_refunded do_request_cancel env c s h = ground arith
call_refunded do_finalize env c s h = ground arith
