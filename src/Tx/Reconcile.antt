-- ===== src/Tx/Reconcile.antt =====
-- Reconciling a task that was in flight.
use solonpad_contracts.Base.{
  Bool, Bool-cases, Option, arith, false, inl, inr, ltb, none, some, true, ℕ, ◌+◌, ◌||◌, ◌≡◌, ◌≢◌,
}
use solonpad_contracts.Base.Dict.{lookup}
use solonpad_contracts.Journal.{
  Journal, Task, confirmed_task, failed_task, mark_confirmed, mark_failure, quarantined,
}
use solonpad_contracts.Journal.Laws.{
  AllValid, lookup-upsert_task_ne, lookup_state, mark_confirmed-AllValid, mark_failure-AllValid,
}
use solonpad_contracts.Tx.{Config, Node, hash_or, reconcile, reconcile_with}

reconcile_with-AllValid :
    (cfg : Config) (node : Node) (k : ℕ) (t : Task) (r : Option Bool) (j : Journal)
    → lookup_state k j ≢ some quarantined
    → AllValid j
    → AllValid (reconcile_with cfg node k t r j).journal
unfolding reconcile_with
reconcile_with-AllValid cfg node k t (some true) j s v =
    mark_confirmed-AllValid k node.now (hash_or t.hash) j s v
reconcile_with-AllValid cfg node k t (some false) j s v = mark_failure-AllValid k node.now false j v
reconcile_with-AllValid cfg node k t none j s v =
    elim (Bool-cases (ltb t.nonce node.latest_nonce || ltb (t.sent_at + cfg.give_up_ms) node.now)) [
      | inl gone ↦ rw gone (mark_failure-AllValid k node.now false j v)
      | inr waits ↦ rw waits v
    ]

pub reconcile-AllValid :
    (cfg : Config) (node : Node) (k : ℕ) (t : Task) (j : Journal)
    → lookup_state k j ≢ some quarantined
    → AllValid j
    → AllValid (reconcile cfg node k t j).journal
unfolding reconcile
reconcile-AllValid cfg node k t j s v =
    reconcile_with-AllValid cfg node k t (node.receipt_of (hash_or t.hash)) j s v

pub reconcile_others :
    (cfg : Config) (node : Node) (k i : ℕ) (t : Task) (j : Journal)
    → i ≢ k
    → lookup i (reconcile cfg node k t j).journal ≡ lookup i j
unfolding reconcile reconcile_with mark_confirmed mark_failure
reconcile_others cfg node k i t j h = ground (
  arith,
  lookup-upsert_task_ne i k node.now (confirmed_task node.now (hash_or t.hash)) j h,
  lookup-upsert_task_ne i k node.now (failed_task false node.now) j h,
)
