-- ===== src/Launcher/Launch.antt =====
-- Launching the queue's heads (keepers/v3/launcher/keeper.mjs: tick, launchOne, dispatchFunded, failed). The chain with
-- the transaction sender and the quote service are outside this part: what a world answers, and a call that gives
-- the next world and whether it was confirmed. A route that is not the expected one, and a missing signer, throw
-- and end the tick.
pub mod Afforded
use solonpad_contracts.Base.{
  Bool, List, Option, false, if◌then◌else◌, leb, ltb, none, not, or_else, some, suc, true, zero, ℕ,
  ◌+◌, ◌-◌, ◌∷◌,
}
use solonpad_contracts.Base.Dict.{Dict, insert, lookup}
use solonpad_contracts.Launcher.Planning.{
  LaunchPlan, OrderView, Params, Proof, Quoted, plan_launch, planned, verified,
}

-- `HubStatus`, as far as the launcher tells it apart.
pub data HubStatus : Type 0 where
  pending funded cancelled other_status : HubStatus

pub data Op : Type 0 where
  launch_next : (id order_id fee : ℕ) → Op
  dispatch : (id : ℕ) → Op

pub data CallStatus : Type 0 where
  confirmed dry not_confirmed : CallStatus

pub data Fill : Type 0 where
  not_seen success failure refunded abandoned : Fill

-- The journal record of a launch.
pub record LaunchRec : Type 0 where
  pub order_id : Option ℕ
  pub request_id : Option ℕ
  pub launched_at : Option ℕ
  pub failures : ℕ
  pub fill : Fill

abbrev pub no_launch : LaunchRec
no_launch = record {
  order_id = none;
  request_id = none;
  launched_at = none;
  failures = 0;
  fill = not_seen;
}

pub data Alert : Type 0 where
  deposit_unproven short_output refunded_at_launch dispatched_by_keeper : (id : ℕ) → Alert
  keeps_failing queue_waits fill_failed fill_slow : (id : ℕ) → Alert

-- `nextLaunch`, `getOrder`, `quoteDispatch`, the route's checks with the signer's, the quotes and the receipt.
pub record Chain (W : Type 0) : Type 0 where
  pub next_launch : W → Option ℕ
  pub status : W → (id : ℕ) → HubStatus
  pub is_public : W → (id : ℕ) → Bool
  pub order : W → (id : ℕ) → OrderView
  pub created_at : W → (id : ℕ) → ℕ
  pub lz_fee : W → (id : ℕ) → ℕ
  pub is_quotable : W → (id : ℕ) → Bool
  pub quote : W → (amount : ℕ) → Quoted
  pub can_sign : W → (id : ℕ) → Bool
  pub proof : W → Op → Proof
  pub call : W → Op → W × CallStatus

pub record State (W : Type 0) : Type 0 where
  pub world : W
  pub launches : Dict LaunchRec
  pub sends : List (W × Op)
  pub alerts : List Alert

pub data Out : Type 0 where
  launched skipped failed dry_run threw nothing_queued : Out

module _ {W : Type 0} where
  abbrev pub launch_rec : (id : ℕ) → State W → LaunchRec
  launch_rec id s = or_else (lookup id s.launches) no_launch

  abbrev pub patch_launch : (id : ℕ) → (LaunchRec → LaunchRec) → State W → State W
  patch_launch id patch s = record s {
    launches = insert id (patch (or_else (lookup id s.launches) no_launch)) s.launches;
  }

  abbrev pub alert_if : Bool → Alert → State W → State W
  alert_if b a s = if b then record s { alerts = a ∷ s.alerts } else s

module _ {W : Type 0} (chain : Chain W) (p : Params) (now : ℕ) where
  unfoldable pub send : Op → State W → State W × CallStatus
  send op s =
      let (w, status) = chain.call s.world op in
      (record s { world = w; sends = (s.world, op) ∷ s.sends }, status)

  -- `failed`
  unfoldable pub fail_launch : (id : ℕ) → State W → State W
  fail_launch id s =
      let n = (launch_rec id s).failures + 1 in
      alert_if (leb p.fail_alert_after n) (keeps_failing id)
        (patch_launch id (λ r. record r { failures = n }) s)

  -- `dispatchFunded`
  pub dispatch_funded : (id : ℕ) → State W → State W
  dispatch_funded id s =
      let after = (send (dispatch id) s).0 in
      record after { alerts = dispatched_by_keeper id ∷ after.alerts }

  abbrev pub on_status : (id : ℕ) → HubStatus → State W → State W
  on_status id cancelled s = record s { alerts = refunded_at_launch id ∷ s.alerts }
  on_status id funded s =
      let dispatched = dispatch_funded id s in if chain.is_public s.world id then dispatched else s
  on_status id _ s = s

  abbrev pub is_verified : Proof → Bool
  is_verified verified = true
  is_verified _ = false

  -- What is recorded and said of a confirmed launch.
  pub report_launch : (id : ℕ) → Op → (short_bps : ℕ) → State W → State W
  report_launch id op short s =
      let noted = patch_launch id (λ r. record r { launched_at = some now; failures = 0 }) s in
      alert_if (leb p.shortfall_alert_bps short) (short_output id)
        (alert_if (not (is_verified (chain.proof s.world op))) (deposit_unproven id) noted)

  -- Behind a confirmed launch.
  pub after_launch : (id : ℕ) → Op → (short_bps : ℕ) → State W → State W
  after_launch id op short s = on_status id (chain.status s.world id) (report_launch id op short s)

  abbrev pub on_call : (id : ℕ) → Op → (short_bps : ℕ) → State W × CallStatus → Out × State W
  on_call id op short (s, confirmed) = (launched, after_launch id op short s)
  on_call id op short (s, dry) = (dry_run, s)
  on_call id op short (s, not_confirmed) = (failed, fail_launch id s)

  -- The intent is stored, and the launch sent.
  unfoldable pub send_launch : (id fee : ℕ) → Quoted → (short_bps : ℕ) → State W → Out × State W
  send_launch id fee q short s =
      let op = launch_next id q.order_id fee in
      let stored =
        patch_launch id
          (λ r. record r { order_id = some q.order_id; request_id = some q.request_id }) s in
      on_call id op short (send op stored)

  abbrev pub on_plan : (id : ℕ) → LaunchPlan → State W → Out × State W
  on_plan id (planned fee q short) s =
      let sent = send_launch id fee q short s in
      if chain.can_sign s.world id then sent else (threw, s)
  on_plan id _ s = (failed, fail_launch id s)

  abbrev pub plan_in : W → (id : ℕ) → LaunchPlan
  plan_in w id = plan_launch (chain.quote w) p (chain.lz_fee w id) (chain.order w id)

  abbrev pub is_pending : HubStatus → Bool
  is_pending pending = true
  is_pending _ = false

  -- `launchOne`
  unfoldable pub launch_one : (id : ℕ) → State W → Out × State W
  launch_one id s =
      let done_now = on_plan id (plan_in s.world id) s in
      if not (is_pending (chain.status s.world id))
      then (skipped, s)
      else if not (chain.is_quotable s.world id)
      then (failed, fail_launch id s)
      else done_now

  abbrev pub is_launched : Out → Bool
  is_launched launched = true
  is_launched _ = false

  abbrev pub launch_head : Option ℕ → State W → Out × State W
  launch_head none s = (nothing_queued, s)
  launch_head (some id) s = launch_one id s

  -- The loop of `tick`.
  pub launch_heads : (n : ℕ) → State W → Out × State W
  launch_heads zero s = (nothing_queued, s)
  launch_heads (suc n) s =
      let (out, after) = launch_head (chain.next_launch s.world) s in
      let rest = launch_heads n after in if is_launched out then rest else (out, after)

  -- `watchQueue`, as far as it alerts.
  pub watch_queue : State W → State W
  watch_queue s = elim (chain.next_launch s.world) [
    | none ↦ s
    | some id ↦
        alert_if (ltb p.queue_alert_sec (now - chain.created_at s.world id)) (queue_waits id) s
  ]
