-- ===== src/Tx/Reopened.antt =====
-- Where a key is signed for again, and what the journal then knows of the earlier transaction.
use solonpad_contracts.Base.{
  List, [], arith, false, inl, length, none, some, suc, true, zero, ℕ, ◌+◌, ◌-◌, ◌<◌, ◌∷◌, ◌≡◌, ◌≤◌,
  ◌⊎◌,
}
use solonpad_contracts.Base.Dict.{lookup}
use solonpad_contracts.Journal.{
  Journal, Task, backoff_ms, failed_task, goes, mark_failure, mark_sent, max_attempts, quarantined,
  ready, retryable, sent_task, task_gate,
}
use solonpad_contracts.Journal.Laws.{lookup-upsert_task, lookup_state}
use solonpad_contracts.Tx.{
  Config, Node, Signed, attempt, hash_or, held, reconcile, reconcile_with, refused, rejected, send,
  send_gated, transmit,
}

-- A run of failed calls: each is a call of `send` on the same key, at its own node and time.
backoff_ms-le : (n : ℕ) → backoff_ms n ≤ 60_000
backoff_ms-le zero = omega arith
backoff_ms-le (suc zero) = omega arith
backoff_ms-le (suc (suc zero)) = omega arith
backoff_ms-le (suc (suc (suc n))) = omega arith

module _ (sign : (key nonce gas_limit : ℕ) → Signed) (cfg : Config) (k limit : ℕ) where
  pub send_each : List Node → Journal → Journal
  send_each [] j = j
  send_each (node ∷ nodes) j = send_each nodes (send sign cfg node k limit j).journal

  fails_once :
      (node : Node) (j : Journal) (t : Task)
      → cfg.live ≡ true
      → node.simulates ≡ false
      → lookup k j ≡ some t
      → (t.state ≡ ready) ⊎ ((t.state ≡ retryable) × (t.next_attempt_at ≤ node.now))
      → lookup k (send sign cfg node k limit j).journal
        ≡ some (record (failed_task false node.now t) { updated_at = node.now })
  unfolding send send_gated attempt task_gate mark_failure
  fails_once node j t l s e r =
      ground (arith, lookup-upsert_task k node.now (failed_task false node.now) j)

  -- Each node's simulation fails, and each call comes no sooner than the last one's backoff.
  pub data Retries : ℕ → List Node → Type 0 where
    no_more : {at : ℕ} → Retries at []
    again :
        {at : ℕ} {node : Node} {nodes : List Node}
        → node.simulates ≡ false
        → at ≤ node.now
        → Retries (node.now + 60_000) nodes
        → Retries at (node ∷ nodes)

  fails_each :
      (nodes : List Node) (j : Journal) (t : Task) (at : ℕ)
      → cfg.live ≡ true
      → Retries at nodes
      → lookup k j ≡ some t
      → (t.state ≡ ready) ⊎ ((t.state ≡ retryable) × (t.next_attempt_at ≤ at))
      → t.attempts + length nodes ≡ max_attempts
      → 0 < length nodes
      → lookup_state k (send_each nodes j) ≡ some quarantined
  unfolding send_each
  fails_each nodes j t at l no_more e r n p = absurd (omega arith)
  fails_each nodes j t at l (again {node} {nodes = []} s late more) e r n p =
      let once = fails_once node j t l s e (ground arith) in
      ground (arith, once, backoff_ms-le (t.attempts + 1))
  fails_each nodes j t at l (again {node} {nodes = m ∷ ms} s late more) e r n p =
      fails_each (m ∷ ms) (send sign cfg node k limit j).journal
        (record (failed_task false node.now t) { updated_at = node.now }) (node.now + 60_000) l more
        (fails_once node j t l s e (ground arith)) (ground (arith, backoff_ms-le (t.attempts + 1)))
        (omega arith) (omega arith)

  -- Five calls in a row that fail in simulation, none within its backoff, quarantine a ready task, and no
  -- later call broadcasts anything for it.
  pub send_gives_up :
      (nodes : List Node) (j : Journal) {t : Task} (node : Node)
      → cfg.live ≡ true
      → Retries 0 nodes
      → length nodes ≡ max_attempts
      → lookup k j ≡ some t
      → (t.state ≡ ready) × (t.attempts ≡ 0)
      → let j' = send_each nodes j in
        (lookup_state k j' ≡ some quarantined)
        × ((send sign cfg node k limit j').broadcasts ≡ [])
        × ((send sign cfg node k limit j').status ≡ held)
  unfolding send send_gated task_gate
  send_gives_up nodes j {t} node l r n e s =
      let last = fails_each nodes j t 0 l r e (inl s.0) (omega arith) (omega arith) in
      (last, ground (arith, last), ground (arith, last))

-- A task in flight with fewer than four failures, whose transaction was neither mined nor replaced, is
-- given up once it was sent more than `giveUpMs` ago: from 60 seconds later on, when the back-off is over,
-- the journal allows a new signature although the earlier transaction's nonce is still unused.
pub reconcile_gives_up :
    (cfg : Config) (node : Node) (k : ℕ) (t : Task) (j : Journal) (later : ℕ)
    → lookup k j ≡ some t
    → t.attempts < max_attempts - 1
    → node.receipt_of (hash_or t.hash) ≡ none
    → node.latest_nonce ≤ t.nonce
    → t.sent_at + cfg.give_up_ms < node.now
    → node.now + 60_000 ≤ later
    → goes (task_gate (lookup k (reconcile cfg node k t j).journal) later) ≡ true
unfolding reconcile reconcile_with mark_failure task_gate
reconcile_gives_up cfg node k t j later e a r n late wait = ground (
  arith,
  lookup-upsert_task k node.now (failed_task false node.now) j,
  backoff_ms-le (t.attempts + 1),
)

-- A broadcast that the node refuses because it knows the transaction already counts as a failure: a task
-- with fewer than four failures before it is reopened for a new signature from 60 seconds later on, when
-- the back-off is over, although the node holds the transaction.
pub transmit_already_known :
    (sign : (key nonce gas_limit : ℕ) → Signed) (node : Node) (k limit : ℕ) (j : Journal) {t : Task}
    (later : ℕ)
    → node.broadcast ≡ refused true
    → lookup k j ≡ some t
    → t.attempts < max_attempts - 1
    → node.now + 60_000 ≤ later
    → let out = transmit sign node k limit j in
      (out.status ≡ rejected)
      × (out.broadcasts ≡ (sign k node.pending_nonce limit).raw ∷ [])
      × (goes (task_gate (lookup k out.journal) later) ≡ true)
unfolding transmit mark_sent mark_failure task_gate
transmit_already_known sign node k limit j {t} later b e a wait =
    let s = sign k node.pending_nonce limit in
    let j' = mark_sent k node.now s.hash node.pending_nonce s.raw j in
    let one =
      lookup-upsert_task k node.now (sent_task node.now s.hash node.pending_nonce s.raw) j in
    let two = lookup-upsert_task k node.now (failed_task false node.now) j' in
    let bound = backoff_ms-le (t.attempts + 1) in
    (ground arith, ground arith, ground (arith, one, two, bound))
