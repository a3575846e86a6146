-- ===== src/Launcher/Launch/Afforded.antt =====
-- What a tick of the launcher sends.
use solonpad_contracts.Launcher.Planning.Afforded.{plan_launch_affords}
use solonpad_contracts.Base.{
  All, Bool, Bool-cases, Option, ap, arith, false, if_lem, inl, inr, leb, none, not, refl, some,
  subst, suc, sym, true, zero, ℕ, ◌%◌, ◌+◌, ◌-◌, ◌∙◌, ◌≡◌, ◌≢◌, ◌≤◌, ◌⊎◌,
}
use solonpad_contracts.Launcher.Planning.{
  LaunchPlan, Params, Quoted, keep_of, no_fee, planned, scale, shortfall, unaligned,
}
use solonpad_contracts.Launcher.Launch.{
  Alert, CallStatus, Chain, HubStatus, Op, Out, State, after_launch, alert_if, cancelled, confirmed,
  deposit_unproven, dispatch, dispatch_funded, dry, fail_launch, funded, is_launched, is_pending,
  is_verified, keeps_failing, launch_head, launch_heads, launch_next, launch_one, launch_rec,
  not_confirmed, on_call, on_plan, on_status, other_status, patch_launch, pending, plan_in,
  report_launch, send, send_launch, short_output, skipped,
}

module _ {W : Type 0} (chain : Chain W) (p : Params) (now : ℕ) where
  -- A launch that its world can afford: the order is pending, and a route's fee above 0 fits in the reserve next to
  -- the LayerZero fee with its buffer. A dispatch is for a funded order that the public placed.
  abbrev pub IsAfforded : W × Op → Type 0
  IsAfforded (w, launch_next id order_id fee) =
      let o = chain.order w id in
      (chain.status w id ≡ pending)
      × ((fee ≡ 0) ⊎ (fee + keep_of p (chain.lz_fee w id) ≤ o.extra))
      × ((o.amount_in + fee) % scale ≡ 0)
  IsAfforded (w, dispatch id) = (chain.status w id ≡ funded) × (chain.is_public w id ≡ true)

  abbrev Affords : State W → Type 0
  Affords s = All IsAfforded s.sends

  alert_if_same :
      (b : Bool) (a : Alert) (s : State W)
      → let t = alert_if b a s in (t.sends ≡ s.sends) × (t.world ≡ s.world)
  alert_if_same true a s = (refl, refl)
  alert_if_same false a s = (refl, refl)

  on_status-Affords :
      (id : ℕ) (h : HubStatus) (s : State W)
      → chain.status s.world id ≡ h
      → Affords s
      → Affords (on_status chain p now id h s)
  unfolding dispatch_funded send
  on_status-Affords id pending s e a = a
  on_status-Affords id cancelled s e a = a
  on_status-Affords id other_status s e a = a
  on_status-Affords id funded s e a = elim (Bool-cases (chain.is_public s.world id)) [
    | inl public ↦ rw public ((e, public), a)
    | inr own ↦ rw own a
  ]

  alert_if-Affords : (b : Bool) (a : Alert) (s : State W) → Affords s → Affords (alert_if b a s)
  alert_if-Affords true a s h = h
  alert_if-Affords false a s h = h

  report_launch_same :
      (id : ℕ) (op : Op) (short : ℕ) (s : State W)
      → let t = report_launch chain p now id op short s in (t.sends ≡ s.sends) × (t.world ≡ s.world)
  unfolding report_launch
  report_launch_same id op short s =
      let noted = patch_launch id (λ r. record r { launched_at = some now; failures = 0 }) s in
      let unproven = not (is_verified chain p now (chain.proof s.world op)) in
      let proven = alert_if unproven (deposit_unproven id) noted in
      let first = alert_if_same unproven (deposit_unproven id) noted in
      let second = alert_if_same (leb p.shortfall_alert_bps short) (short_output id) proven in
      (second.0 ∙ first.0, second.1 ∙ first.1)

  after_launch-Affords :
      (id : ℕ) (op : Op) (short : ℕ) (s : State W)
      → Affords s
      → Affords (after_launch chain p now id op short s)
  unfolding after_launch
  after_launch-Affords id op short s a =
      let t = report_launch chain p now id op short s in
      let same = report_launch_same id op short s in
      on_status-Affords id (chain.status s.world id) t (ap (λ w. chain.status w id) same.1)
        (subst (All IsAfforded) (sym same.0) a)

  fail_launch-Affords : (id : ℕ) (s : State W) → Affords s → Affords (fail_launch chain p now id s)
  unfolding fail_launch
  fail_launch-Affords id s a =
      let n = (launch_rec id s).failures + 1 in
      alert_if-Affords (leb p.fail_alert_after n) (keeps_failing id)
        (patch_launch id (λ r. record r { failures = n }) s) a

  on_call-Affords :
      (id : ℕ) (op : Op) (short : ℕ) (c : CallStatus) (s : State W)
      → Affords s
      → Affords (on_call chain p now id op short (s, c)).1
  on_call-Affords id op short confirmed s a = after_launch-Affords id op short s a
  on_call-Affords id op short dry s a = a
  on_call-Affords id op short not_confirmed s a = fail_launch-Affords id s a

  send_launch-Affords :
      (id fee : ℕ) (q : Quoted) (short : ℕ) (s : State W)
      → IsAfforded (s.world, launch_next id q.order_id fee)
      → Affords s
      → Affords (send_launch chain p now id fee q short s).1
  unfolding send_launch send
  send_launch-Affords id fee q short s good a =
      let op = launch_next id q.order_id fee in
      let stored =
        patch_launch id
          (λ r. record r { order_id = some q.order_id; request_id = some q.request_id }) s in
      let after = (send chain p now op stored).0 in
      on_call-Affords id op short (send chain p now op stored).1 after (good, a)

  abbrev AffordsAfter : Out × State W → Type 0
  AffordsAfter out = Affords out.1

  on_plan-Affords :
      (id : ℕ) (plan : LaunchPlan) (s : State W)
      → plan_in chain p now s.world id ≡ plan
      → chain.status s.world id ≡ pending
      → Affords s
      → AffordsAfter (on_plan chain p now id plan s)
  on_plan-Affords id no_fee s e w a = fail_launch-Affords id s a
  on_plan-Affords id unaligned s e w a = fail_launch-Affords id s a
  on_plan-Affords id shortfall s e w a = fail_launch-Affords id s a
  on_plan-Affords id (planned fee q short) s e w a =
      let keep = keep_of p (chain.lz_fee s.world id) in
      let extra = (chain.order s.world id).extra in
      let room : fee ≤ extra - keep → (fee ≡ 0) ⊎ (fee + keep ≤ extra) = λ le. ground arith in
      let (fits, whole, asked, enough) =
        plan_launch_affords (chain.quote s.world) p (chain.lz_fee s.world id)
          (chain.order s.world id) fee q short e in
      if_lem AffordsAfter (chain.can_sign s.world id)
        (λ signs. send_launch-Affords id fee q short s (w, room fits, whole) a) (λ cannot. a)

  is_pending-pending : (h : HubStatus) → not (is_pending chain p now h) ≡ false → h ≡ pending
  is_pending-pending pending h = refl
  is_pending-pending funded h = ground arith
  is_pending-pending cancelled h = ground arith
  is_pending-pending other_status h = ground arith

  launch_one-Affords :
      (id : ℕ) (s : State W) → Affords s → AffordsAfter (launch_one chain p now id s)
  unfolding launch_one
  launch_one-Affords id s a =
      if_lem AffordsAfter (not (is_pending chain p now (chain.status s.world id))) (λ gone. a)
        (λ waits.
          if_lem AffordsAfter (not (chain.is_quotable s.world id))
            (λ unquoted. fail_launch-Affords id s a)
            (λ quoted.
              on_plan-Affords id (plan_in chain p now s.world id) s refl
                (is_pending-pending (chain.status s.world id) waits) a))

  is_pending_iff : (h : HubStatus) → h ≢ pending → is_pending chain p now h ≡ false
  is_pending_iff pending gone = absurd (gone refl)
  is_pending_iff funded gone = refl
  is_pending_iff cancelled gone = refl
  is_pending_iff other_status gone = refl

  -- An order that is not pending is left alone.
  pub launch_one_skips :
      (id : ℕ) (s : State W)
      → chain.status s.world id ≢ pending
      → launch_one chain p now id s ≡ (skipped, s)
  unfolding launch_one
  launch_one_skips id s gone =
      let away = is_pending_iff (chain.status s.world id) gone in rw away refl

  launch_head-Affords :
      (o : Option ℕ) (s : State W) → Affords s → AffordsAfter (launch_head chain p now o s)
  launch_head-Affords none s a = a
  launch_head-Affords (some id) s a = launch_one-Affords id s a

  -- Whatever the chain and the quote service answer, a tick launches only orders that are pending at their turn, with a
  -- deposit of whole units, each with a route fee that together with the LayerZero fee and its buffer is at most
  -- the order's own reserve, or without a route fee (which it does whatever the reserve holds); and it
  -- dispatches only public orders that are funded.
  pub launch_heads-IsAfforded :
      (n : ℕ) (s : State W)
      → All IsAfforded s.sends
      → All IsAfforded (launch_heads chain p now n s).1.sends
  unfolding launch_heads
  launch_heads-IsAfforded zero s a = a
  launch_heads-IsAfforded (suc n) s a =
      let head = launch_head chain p now (chain.next_launch s.world) s in
      let first = launch_head-Affords (chain.next_launch s.world) s a in
      if_lem AffordsAfter (is_launched chain p now head.0)
        (λ went. launch_heads-IsAfforded n head.1 first) (λ stays. first)
