-- ===== src/Tx/Send.antt =====
-- What one call of `send` guarantees.
use solonpad_contracts.Base.{
  Bool, List, Option, Option-cases, [], arith, false, if◌then◌else◌, inl, inr, none, refl, some,
  true, ℕ, ◌*◌, ◌/◌, ◌<◌, ◌==◌, ◌∷◌, ◌≡◌, ◌≢◌, ◌≤◌, ◌⊎◌,
}
use solonpad_contracts.Base.Dict.{lookup}
use solonpad_contracts.Journal.{
  Gate, Journal, Task, confirmed, confirmed_task, failed_task, goes, in_backoff, is_confirmed,
  is_quarantined, mark_confirmed, mark_failure, mark_sent, new_task, quarantined, ready_task,
  reconcile_first, retry, retryable, sent, sent_task, task_gate,
}
use solonpad_contracts.Journal.Laws.{
  AllValid, lookup-upsert_task, lookup-upsert_task_ne, lookup_state, mark_confirmed-AllValid,
  mark_failure-AllValid, mark_sent-AllValid,
}
use solonpad_contracts.Tx.Reconcile.{reconcile-AllValid, reconcile_others}
use solonpad_contracts.Tx.{
  Broadcast, Config, Node, Signed, Waited, accepted, after_broadcast, ambiguous, attempt,
  await_receipt, failed, finish, mined, raws, reconcile, reconcile_with, refused, send, send_gated,
  timed_out, transmit,
}

-- The hash and the nonce recorded for a key.
abbrev pub hash_at : ℕ → Journal → Option ℕ
hash_at k j = elim (lookup k j) [ none ↦ none | some t ↦ t.hash ]

abbrev pub nonce_at : ℕ → Journal → Option ℕ
nonce_at k j = elim (lookup k j) [ none ↦ none | some t ↦ some t.nonce ]

finish-AllValid :
    (k now h : ℕ) (r : Option Bool) (j : Journal) (out : List ℕ)
    → lookup_state k j ≢ some quarantined
    → AllValid j
    → AllValid (finish k now h r j out).journal
finish-AllValid k now h (some true) j out s v = mark_confirmed-AllValid k now h j s v
finish-AllValid k now h (some false) j out s v = mark_failure-AllValid k now false j v
finish-AllValid k now h none j out s v = v

await_receipt-AllValid :
    (node : Node) (k h : ℕ) (w : Waited) (j : Journal) (out : List ℕ)
    → lookup_state k j ≢ some quarantined
    → AllValid j
    → AllValid (await_receipt node k h w j out).journal
await_receipt-AllValid node k h (mined r) j out s v =
    finish-AllValid k node.now h (some r) j out s v
await_receipt-AllValid node k h timed_out j out s v =
    finish-AllValid k node.now h node.late_receipt j out s v
await_receipt-AllValid node k h failed j out s v = v

after_broadcast-AllValid :
    (node : Node) (k : ℕ) (s : Signed) (b : Broadcast) (j : Journal)
    → lookup_state k j ≢ some quarantined
    → AllValid j
    → AllValid (after_broadcast node k s b j).journal
after_broadcast-AllValid node k s accepted j q v =
    await_receipt-AllValid node k s.hash node.waited j (s.raw ∷ []) q v
after_broadcast-AllValid node k s ambiguous j q v = v
after_broadcast-AllValid node k s (refused _) j q v = mark_failure-AllValid k node.now false j v

lookup_state-mark_sent :
    (k now h n r : ℕ) (j : Journal) → lookup_state k (mark_sent k now h n r j) ≢ some quarantined
unfolding mark_sent
lookup_state-mark_sent k now h n r j =
    ground (arith, lookup-upsert_task k now (sent_task now h n r) j)

-- A task whose key is not to be signed for: its transaction is out or done, or it is given up, or its next attempt
-- is not yet due.
abbrev pub IsHeld : (now : ℕ) → Task → Type 0
IsHeld now t =
    (t.state ≡ sent)
    ⊎ (t.state ≡ confirmed)
    ⊎ (t.state ≡ quarantined)
    ⊎ ((t.state ≡ retryable) × (now < t.next_attempt_at))

module _ (sign : (key nonce gas_limit : ℕ) → Signed) where
  -- Nothing is signed anew for a key whose journal task is sent, confirmed, quarantined, or retryable before the
  -- time of its next attempt: the call hands the node nothing, or, for a sent task, at most the transaction that
  -- the task already holds.
  pub send_single_flight :
      (cfg : Config) (node : Node) (k limit : ℕ) (j : Journal) {t : Task}
      → lookup k j ≡ some t
      → IsHeld node.now t
      → let out = send sign cfg node k limit j in
        (out.broadcasts ≡ []) ⊎ ((t.state ≡ sent) × (out.broadcasts ≡ raws t.raw))
  unfolding send send_gated reconcile reconcile_with task_gate
  send_single_flight cfg node k limit j {t} e g = ground arith

  transmit_recorded :
      (node : Node) (k limit : ℕ) (j : Journal)
      → let s = sign k node.pending_nonce limit in
        let out = transmit sign node k limit j in
        (out.broadcasts ≡ s.raw ∷ [])
        × (hash_at k out.journal ≡ some s.hash)
        × (nonce_at k out.journal ≡ some node.pending_nonce)
  unfolding transmit mark_sent mark_failure mark_confirmed
  transmit_recorded node k limit j =
      let s = sign k node.pending_nonce limit in
      let j' = mark_sent k node.now s.hash node.pending_nonce s.raw j in
      ground (
        arith,
        lookup-upsert_task k node.now (sent_task node.now s.hash node.pending_nonce s.raw) j,
        lookup-upsert_task k node.now (failed_task false node.now) j',
        lookup-upsert_task k node.now (confirmed_task node.now s.hash) j',
      )

  -- The gas limit of an attempt: the one given, or the estimate with the margin.
  abbrev pub gas_of : Config → Node → ℕ → ℕ
  gas_of cfg node limit =
      if limit == 0 then node.gas_estimate * cfg.gas_multiplier_bps / 10_000 else limit

  -- What a key whose gate is open broadcasts is one transaction, just signed for the pending nonce, only by
  -- a live sender, within the gas cap if there is one and after a simulation that went through; and the
  -- journal that is left names its hash and nonce, whatever the node answered.
  pub send_recorded :
      (cfg : Config) (node : Node) (k limit : ℕ) (j : Journal)
      → goes (task_gate (lookup k j) node.now) ≡ true
      → (send sign cfg node k limit j).broadcasts ≢ []
      → let s = sign k node.pending_nonce (gas_of cfg node limit) in
        let out = send sign cfg node k limit j in
        (out.broadcasts ≡ s.raw ∷ [])
        × (hash_at k out.journal ≡ some s.hash)
        × (nonce_at k out.journal ≡ some node.pending_nonce)
        × (cfg.live ≡ true)
        × (node.simulates ≡ true)
        × ((cfg.max_fee_cap ≡ 0) ⊎ (node.fee ≤ cfg.max_fee_cap))
  unfolding send send_gated attempt task_gate
  send_recorded cfg node k limit j g b =
      ground (arith, transmit_recorded node k (gas_of cfg node limit) j, Option-cases (lookup k j))

  -- A dry run over a task that is not in flight changes nothing and hands the node nothing.
  pub send_dry_run :
      (cfg : Config) (node : Node) (k limit : ℕ) (j : Journal)
      → cfg.live ≡ false
      → lookup_state k j ≢ some sent
      → let out = send sign cfg node k limit j in (out.journal ≡ j) × (out.broadcasts ≡ [])
  unfolding send send_gated attempt task_gate
  send_dry_run cfg node k limit j d s = ground (arith, Option-cases (lookup k j))

  transmit_others :
      (node : Node) (k limit i : ℕ) (j : Journal)
      → i ≢ k
      → lookup i (transmit sign node k limit j).journal ≡ lookup i j
  unfolding transmit mark_sent mark_failure mark_confirmed
  transmit_others node k limit i j h =
      let s = sign k node.pending_nonce limit in
      let j' = mark_sent k node.now s.hash node.pending_nonce s.raw j in
      ground (
        arith,
        lookup-upsert_task_ne i k node.now (sent_task node.now s.hash node.pending_nonce s.raw) j h,
        lookup-upsert_task_ne i k node.now (failed_task false node.now) j' h,
        lookup-upsert_task_ne i k node.now (confirmed_task node.now s.hash) j' h,
      )

  attempt_others :
      (cfg : Config) (node : Node) (k limit i : ℕ) (j : Journal)
      → i ≢ k
      → lookup i (attempt sign cfg node k limit j).journal ≡ lookup i j
  unfolding attempt mark_failure
  attempt_others cfg node k limit i j h = ground (
    arith,
    transmit_others node k (gas_of cfg node limit) i j h,
    lookup-upsert_task_ne i k node.now (failed_task false node.now) j h,
  )

  -- A call touches no other key's task.
  pub send_others :
      (cfg : Config) (node : Node) (k limit i : ℕ) (j : Journal)
      → i ≢ k
      → lookup i (send sign cfg node k limit j).journal ≡ lookup i j
  unfolding send send_gated task_gate
  send_others cfg node k limit i j h = elim (Option-cases (lookup k j)) [
    | inl absent ↦ rw (absent, send_gated) (attempt_others cfg node k limit i j h)
    | inr (t, e) ↦
        ground (arith, reconcile_others cfg node k i t j h, attempt_others cfg node k limit i j h)
  ]

  transmit-AllValid :
      (node : Node) (k limit : ℕ) (j : Journal)
      → goes (task_gate (lookup k j) node.now) ≡ true
      → AllValid j
      → AllValid (transmit sign node k limit j).journal
  unfolding transmit
  transmit-AllValid node k limit j g v =
      let s = sign k node.pending_nonce limit in
      after_broadcast-AllValid node k s node.broadcast
        (mark_sent k node.now s.hash node.pending_nonce s.raw j)
        (lookup_state-mark_sent k node.now s.hash node.pending_nonce s.raw j)
        (mark_sent-AllValid k node.now s.hash node.pending_nonce s.raw j g v)

  attempt_journal :
      (cfg : Config) (node : Node) (k limit : ℕ) (j : Journal)
      → let j' = (attempt sign cfg node k limit j).journal in
        (j' ≡ j)
        ⊎ (j' ≡ mark_failure k node.now false j)
        ⊎ (j' ≡ (transmit sign node k (gas_of cfg node limit) j).journal)
  unfolding attempt
  attempt_journal cfg node k limit j = ground arith

  attempt-AllValid :
      (cfg : Config) (node : Node) (k limit : ℕ) (j : Journal)
      → goes (task_gate (lookup k j) node.now) ≡ true
      → AllValid j
      → AllValid (attempt sign cfg node k limit j).journal
  attempt-AllValid cfg node k limit j g v = elim (attempt_journal cfg node k limit j) [
    | inl same ↦ rw same v
    | inr (inl failed_now) ↦ rw failed_now (mark_failure-AllValid k node.now false j v)
    | inr (inr went) ↦ rw went (transmit-AllValid node k (gas_of cfg node limit) j g v)
  ]

  send_gated-AllValid :
      (cfg : Config) (node : Node) (k limit : ℕ) (j : Journal) (o : Option Task) (g : Gate)
      → lookup k j ≡ o
      → task_gate o node.now ≡ g
      → AllValid j
      → AllValid (send_gated sign cfg node k limit o g j).journal
  unfolding send_gated task_gate
  send_gated-AllValid cfg node k limit j (some t) reconcile_first e d v =
      reconcile-AllValid cfg node k t j (ground arith) v
  send_gated-AllValid cfg node k limit j none reconcile_first e d v = cc
  send_gated-AllValid cfg node k limit j (some t) is_confirmed e d v = v
  send_gated-AllValid cfg node k limit j none is_confirmed e d v = cc
  send_gated-AllValid cfg node k limit j none is_quarantined e d v = v
  send_gated-AllValid cfg node k limit j (some t) is_quarantined e d v = v
  send_gated-AllValid cfg node k limit j none in_backoff e d v = v
  send_gated-AllValid cfg node k limit j (some t) in_backoff e d v = v
  send_gated-AllValid cfg node k limit j none new_task e d v =
      attempt-AllValid cfg node k limit j (ground arith) v
  send_gated-AllValid cfg node k limit j (some t) new_task e d v =
      attempt-AllValid cfg node k limit j (ground arith) v
  send_gated-AllValid cfg node k limit j none retry e d v =
      attempt-AllValid cfg node k limit j (ground arith) v
  send_gated-AllValid cfg node k limit j (some t) retry e d v =
      attempt-AllValid cfg node k limit j (ground arith) v
  send_gated-AllValid cfg node k limit j none ready_task e d v =
      attempt-AllValid cfg node k limit j (ground arith) v
  send_gated-AllValid cfg node k limit j (some t) ready_task e d v =
      attempt-AllValid cfg node k limit j (ground arith) v

  -- Whatever the node answers, a call keeps every task of the journal valid: attempts stay under the limit
  -- until the task is quarantined, and a signed transaction is held exactly while its task is in flight.
  pub send-AllValid :
      (cfg : Config) (node : Node) (k limit : ℕ) (j : Journal)
      → AllValid j
      → AllValid (send sign cfg node k limit j).journal
  unfolding send
  send-AllValid cfg node k limit j v =
      send_gated-AllValid cfg node k limit j (lookup k j) (task_gate (lookup k j) node.now) refl
        refl v
