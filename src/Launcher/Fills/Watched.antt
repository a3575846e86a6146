-- ===== src/Launcher/Fills/Watched.antt =====
-- Which launches are watched until their fill.
use solonpad_contracts.Base.Dict.{insert, lookup-insert_self}
use solonpad_contracts.Launcher.Launch.Afforded.{launch_one_skips}
use solonpad_contracts.Base.{
  arith, false, if_lem, leb, none, refl, some, subst, sym, true, ℕ, ◌+◌, ◌-◌, ◌<◌, ◌↔◌, ◌≡◌, ◌≢◌,
  ◌⊎◌,
}
use solonpad_contracts.Launcher.Planning.{Params, Quoted, planned}
use solonpad_contracts.Launcher.Launch.{
  Chain, LaunchRec, State, fail_launch, fill_failed, fill_slow, launch_next, launch_one, launch_rec,
  not_confirmed, pending, plan_in, send, send_launch, skipped, success,
}
use solonpad_contracts.Launcher.Fills.{
  RelayStatus, is_set, is_settled, relay_failure, relay_refund, relay_success, skips, unknown,
  waiting, watch_fill,
}

-- A launch that the keeper saw confirmed is watched until Relay says success: it is alerted the moment Relay fails
-- or refunds it, and at every watch once it is older than the limit.
pub watch_fill_alerts :
    (id now at request : ℕ) (p : Params) (r : LaunchRec) (status : RelayStatus)
    → r.launched_at ≡ some at
    → r.request_id ≡ some request
    → is_settled r.fill ≡ false
    → let (seen, alert) = watch_fill id now p r status in
      ((seen.fill ≡ success) ↔ (status ≡ relay_success))
      × ((status ≡ relay_failure) ⊎ (status ≡ relay_refund) → alert ≡ some (fill_failed id))
      × ((status ≡ waiting) ⊎ (status ≡ unknown)
          → p.fill_alert_sec < now - at
          → alert ≡ some (fill_slow id))
unfolding watch_fill skips
watch_fill_alerts id now at request p r status went asked open_still = ground arith

module _ {W : Type 0} (chain : Chain W) (p : Params) (now : ℕ) where
  -- A turn whose launch is not reported confirmed leaves the record without a launch time.
  send_launch_unseen :
      (id fee short : ℕ) (q : Quoted) (s : State W)
      → (launch_rec id s).launched_at ≡ none
      → (chain.call s.world (launch_next id q.order_id fee)).1 ≡ not_confirmed
      → let after = (send_launch chain p now id fee q short s).1 in
        (after.world ≡ (chain.call s.world (launch_next id q.order_id fee)).0)
        × ((launch_rec id after).launched_at ≡ none)
  unfolding send_launch send fail_launch
  send_launch_unseen id fee short q s unseen unreported =
      let w = (chain.call s.world (launch_next id q.order_id fee)).0 in
      let told = record (launch_rec id s) {
        order_id = some q.order_id;
        request_id = some q.request_id;
      } in
      let stored = insert id told s.launches in
      let there = lookup-insert_self id told s.launches in
      let n = told.failures + 1 in
      let counted = record told { failures = n } in
      let again = lookup-insert_self id counted stored in
      rw (unreported, there)
        (if_lem (λ (t : State W). (t.world ≡ w) × ((launch_rec id t).launched_at ≡ none))
          (leb p.fail_alert_after n) (λ alerts. (refl, rw again unseen))
          (λ quiet. (refl, rw again unseen)))

  -- A launch that lands without being reported confirmed, because its wait timed out, is lost to the watch. In the turn
  -- that sends it the order is pending, planned and signed for, and its record has no launch time; the call is
  -- not reported confirmed, but leaves a world in which the order is no longer pending. Then a later turn of
  -- the order changes nothing, and no watch of its record changes it or alerts, whatever Relay says.
  pub unseen_launch_unwatched :
      (id fee short later : ℕ) (q : Quoted) (s : State W) (status : RelayStatus)
      → (launch_rec id s).launched_at ≡ none
      → (chain.status s.world id ≡ pending)
        × (chain.is_quotable s.world id ≡ true)
        × (chain.can_sign s.world id ≡ true)
        × (plan_in chain p now s.world id ≡ planned fee q short)
      → (chain.call s.world (launch_next id q.order_id fee)).1 ≡ not_confirmed
      → chain.status (chain.call s.world (launch_next id q.order_id fee)).0 id ≢ pending
      → let after = (launch_one chain p now id s).1 in
        (launch_one chain p later id after ≡ (skipped, after))
        × (watch_fill id later p (launch_rec id after) status ≡ (launch_rec id after, none))
  unfolding watch_fill skips launch_one
  unseen_launch_unwatched id fee short later q s status unseen (waits, quotable, signs, plan)
        unreported landed =
      let sent = (send_launch chain p now id fee q short s).1 in
      let (world, untimed) = send_launch_unseen id fee short q s unseen unreported in
      let gone : chain.status sent.world id ≢ pending =
        subst (λ w. chain.status w id ≢ pending) (sym world) landed in
      let same : (launch_one chain p now id s).1 ≡ sent = rw (waits, quotable, plan, signs) refl in
      let left_alone = launch_one_skips chain p later id sent gone in
      let unset : is_set (launch_rec id sent).launched_at ≡ false = rw untimed refl in
      subst
        (λ (t : State W).
          (launch_one chain p later id t ≡ (skipped, t))
          × (watch_fill id later p (launch_rec id t) status ≡ (launch_rec id t, none)))
        (sym same) (left_alone, rw unset refl)
