-- ===== src/Tx/Tests.antt =====
-- The sender at concrete journals.
use solonpad_contracts.Base.{
  Bool, List, [], arith, false, inl, none, refl, some, true, ℕ, ◌+◌, ◌∷◌, ◌≡◌, ◌≢◌, ◌≤◌, ◌⊎◌,
}
use solonpad_contracts.Base.Dict.{lookup}
use solonpad_contracts.Journal.{Journal, Task, fresh_task, goes, quarantined, sent, task_gate}
use solonpad_contracts.Journal.Laws.{AllValid, lookup_state}
use solonpad_contracts.Tx.{
  Broadcast, Config, Node, Signed, accepted, attempt, held, reconcile, refused, rejected, send,
  send_gated, timed_out, transmit,
}
use solonpad_contracts.Tx.Send.{hash_at, nonce_at, send-AllValid, send_recorded, send_single_flight}
use solonpad_contracts.Tx.Reopened.{
  Retries, again, no_more, reconcile_gives_up, send_each, send_gives_up, transmit_already_known,
}

abbrev config : Config
config = record { live = true; give_up_ms = 1_000; max_fee_cap = 50; gas_multiplier_bps = 12_000 }

-- A stand-in for the signer.
abbrev toy_sign : (key nonce gas_limit : ℕ) → Signed
toy_sign key nonce gas_limit = record { raw = 100 + nonce; hash = 200 + nonce }

abbrev node_at : (now : ℕ) → (simulates : Bool) → Broadcast → Node
node_at now simulates broadcast = record {
  now = now;
  receipt_of = λ h. none;
  latest_nonce = 7;
  simulates = simulates;
  fee = 20;
  gas_estimate = 90;
  pending_nonce = 8;
  broadcast = broadcast;
  waited = timed_out;
  late_receipt = none;
}

abbrev in_flight : Task
in_flight = record (fresh_task 10) {
  state = sent;
  hash = some 207;
  nonce = 7;
  raw = some 107;
  sent_at = 10;
}

abbrev one_task : Task → Journal
one_task t = (1, t) ∷ []

send_single_flight_example :
    let out = send toy_sign config (node_at 20 true accepted) 1 0 (one_task in_flight) in
    (out.broadcasts ≡ []) ⊎ ((sent ≡ sent) × (out.broadcasts ≡ 107 ∷ []))
send_single_flight_example =
    send_single_flight toy_sign config (node_at 20 true accepted) 1 0 (one_task in_flight)
      {t = in_flight} refl (inl refl)

abbrev empty_journal : Journal
empty_journal = []

new_goes : goes (task_gate (lookup 1 empty_journal) 20) ≡ true
unfolding task_gate
new_goes = refl

new_broadcasts :
    (send toy_sign config (node_at 20 true accepted) 1 60 empty_journal).broadcasts ≢ []
unfolding send send_gated attempt transmit task_gate
new_broadcasts = cc

send_recorded_example :
    let out = send toy_sign config (node_at 20 true accepted) 1 60 empty_journal in
    (out.broadcasts ≡ 108 ∷ [])
    × (hash_at 1 out.journal ≡ some 208)
    × (nonce_at 1 out.journal ≡ some 8)
    × (config.live ≡ true)
    × ((node_at 20 true accepted).simulates ≡ true)
    × ((config.max_fee_cap ≡ 0) ⊎ (20 ≤ config.max_fee_cap))
send_recorded_example =
    send_recorded toy_sign config (node_at 20 true accepted) 1 60 empty_journal new_goes
      new_broadcasts

empty-AllValid : AllValid empty_journal
empty-AllValid k t e = absurd (ground arith)

send-AllValid_example :
    AllValid (send toy_sign config (node_at 20 true accepted) 1 60 empty_journal).journal
send-AllValid_example =
    send-AllValid toy_sign config (node_at 20 true accepted) 1 60 empty_journal empty-AllValid

reconcile_gives_up_example :
    goes (
      task_gate
        (lookup 1
          (reconcile config (node_at 5_000 true accepted) 1 in_flight (one_task in_flight)).journal)
        65_000)
    ≡ true
reconcile_gives_up_example =
    reconcile_gives_up config (node_at 5_000 true accepted) 1 in_flight (one_task in_flight) 65_000
      refl (omega arith) refl (omega arith) (omega arith) (omega arith)

transmit_already_known_example :
    let out = transmit toy_sign (node_at 20 true (refused true)) 1 60 (one_task (fresh_task 10)) in
    (out.status ≡ rejected)
    × (out.broadcasts ≡ 108 ∷ [])
    × (goes (task_gate (lookup 1 out.journal) 70_000) ≡ true)
transmit_already_known_example =
    transmit_already_known toy_sign (node_at 20 true (refused true)) 1 60 (one_task (fresh_task 10))
      {t = fresh_task 10} 70_000 refl refl (omega arith) (omega arith)

abbrev failing : List Node
failing =
    node_at 20 false accepted
    ∷ (node_at 70_000 false accepted
        ∷ (node_at 140_000 false accepted
            ∷ (node_at 210_000 false accepted ∷ (node_at 280_000 false accepted ∷ []))))

failing-Retries : Retries toy_sign config 1 60 0 failing
failing-Retries = again refl (omega arith) (
    again refl (omega arith)
      (again refl (omega arith) (again refl (omega arith) (again refl (omega arith) no_more))))

send_gives_up_example :
    let after = send_each toy_sign config 1 60 failing (one_task (fresh_task 10)) in
    (lookup_state 1 after ≡ some quarantined)
    × ((send toy_sign config (node_at 900_000 true accepted) 1 60 after).broadcasts ≡ [])
    × ((send toy_sign config (node_at 900_000 true accepted) 1 60 after).status ≡ held)
send_gives_up_example =
    send_gives_up toy_sign config 1 60 failing (one_task (fresh_task 10)) {t = fresh_task 10}
      (node_at 900_000 true accepted) refl failing-Retries refl refl (refl, refl)
