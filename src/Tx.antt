-- ===== src/Tx.antt =====
-- The transaction sender (keepers/v3/lib/tx.mjs: TxSender). The node is outside the program: what it
-- answers during one call is a record of readings. The clock is read once a call. What leaves the
-- process is the list of raw transactions handed to `broadcastTransaction`. Logging is left out.
pub mod Reconcile
pub mod Send
pub mod Reopened
mod Tests
use solonpad_contracts.Base.{
  Bool, List, Option, [], false, if◌then◌else◌, ltb, none, not, some, true, ℕ, ◌&&◌, ◌*◌, ◌+◌, ◌/◌,
  ◌==◌, ◌||◌, ◌∷◌,
}
use solonpad_contracts.Base.Dict.{lookup}
use solonpad_contracts.Journal.{
  Gate, Journal, Task, in_backoff, inflight, is_confirmed, is_quarantined, mark_confirmed,
  mark_failure, mark_sent, reconcile_first, task_gate,
}

-- `execute`, `giveUpMs`, `maxFeePerGasCap` (0 for none) and `gasMultiplierBps`.
pub record Config : Type 0 where
  pub live : Bool
  pub give_up_ms : ℕ
  pub max_fee_cap : ℕ
  pub gas_multiplier_bps : ℕ

-- What the node says to a broadcast: taken, refused by a message that `REJECTED` matches, with whether
-- that message is "already known", or any other error.
pub data Broadcast : Type 0 where
  accepted ambiguous : Broadcast
  refused : (already_known : Bool) → Broadcast

-- `waitForTransaction`: a receipt with its status, a timeout, or another error.
pub data Waited : Type 0 where
  mined : (success : Bool) → Waited
  timed_out failed : Waited

-- The readings of one call. `receipt_of` is `getTransactionReceipt` with the receipt's status, at the
-- start; `late_receipt` the same after a timeout.
pub record Node : Type 0 where
  pub now : ℕ
  pub receipt_of : ℕ → Option Bool
  pub latest_nonce : ℕ
  pub simulates : Bool
  pub fee : ℕ
  pub gas_estimate : ℕ
  pub pending_nonce : ℕ
  pub broadcast : Broadcast
  pub waited : Waited
  pub late_receipt : Option Bool

pub record Signed : Type 0 where
  pub raw : ℕ
  pub hash : ℕ

pub data Status : Type 0 where
  done inflight_still retry_later held backoff simulation_failed dry_run gas_cap rejected reverted
        thrown :
      Status

-- What a call leaves behind: the journal, its status and the raw transactions broadcast.
pub record Outcome : Type 0 where
  pub journal : Journal
  pub status : Status
  pub broadcasts : List ℕ

abbrev pub hash_or : Option ℕ → ℕ
hash_or none = 0
hash_or (some h) = h

abbrev pub raws : Option ℕ → List ℕ
raws none = []
raws (some r) = r ∷ []

-- `reconcile` behind its first reading: the receipt of the task's hash.
pub reconcile_with : Config → Node → (key : ℕ) → Task → Option Bool → Journal → Outcome
reconcile_with cfg node key t (some true) j = record {
  journal = mark_confirmed key node.now (hash_or t.hash) j;
  status = done;
  broadcasts = [];
}
reconcile_with cfg node key t (some false) j = record {
  journal = mark_failure key node.now false j;
  status = retry_later;
  broadcasts = [];
}
reconcile_with cfg node key t none j =
    if ltb t.nonce node.latest_nonce || ltb (t.sent_at + cfg.give_up_ms) node.now
    then record {
      journal = mark_failure key node.now false j;
      status = retry_later;
      broadcasts = [];
    }
    else record { journal = j; status = inflight_still; broadcasts = raws t.raw }

-- `reconcile`; its result `Confirmed`, `Retryable` or `Sent` is the status.
pub reconcile : Config → Node → (key : ℕ) → Task → Journal → Outcome
reconcile cfg node key t j = reconcile_with cfg node key t (node.receipt_of (hash_or t.hash)) j

-- `reconcileAll`: the tasks that were in flight at its start, in the journal's order.
pub reconcile_each : Config → Node → (tasks : Journal) → Journal → Journal
reconcile_each cfg node [] j = j
reconcile_each cfg node ((key, t) ∷ tasks) j =
    reconcile_each cfg node tasks (reconcile cfg node key t j).journal

pub reconcile_all : Config → Node → Journal → Journal
reconcile_all cfg node j = reconcile_each cfg node (inflight j) j

-- The end of `send`: what the receipt says.
abbrev pub finish : ℕ → (now hash : ℕ) → Option Bool → Journal → List ℕ → Outcome
finish key now h none j out = record { journal = j; status = inflight_still; broadcasts = out }
finish key now h (some false) j out = record {
  journal = mark_failure key now false j;
  status = reverted;
  broadcasts = out;
}
finish key now h (some true) j out = record {
  journal = mark_confirmed key now h j;
  status = done;
  broadcasts = out;
}

-- `waitForTransaction` and the receipt read once more after a timeout.
abbrev pub await_receipt : Node → ℕ → ℕ → Waited → Journal → List ℕ → Outcome
await_receipt node key h (mined success) j out = finish key node.now h (some success) j out
await_receipt node key h timed_out j out = finish key node.now h node.late_receipt j out
await_receipt node key h failed j out = record { journal = j; status = thrown; broadcasts = out }

-- `broadcastTransaction` and what follows it.
abbrev pub after_broadcast : Node → ℕ → Signed → Broadcast → Journal → Outcome
after_broadcast node key s accepted j = await_receipt node key s.hash node.waited j (s.raw ∷ [])
after_broadcast node key s ambiguous j = record {
  journal = j;
  status = inflight_still;
  broadcasts = s.raw ∷ [];
}
after_broadcast node key s (refused _) j = record {
  journal = mark_failure key node.now false j;
  status = rejected;
  broadcasts = s.raw ∷ [];
}

module _ (sign : (key nonce gas_limit : ℕ) → Signed) where
  -- `send` from the signature on: the task is recorded as sent before the broadcast.
  pub transmit : Node → (key gas_limit : ℕ) → Journal → Outcome
  transmit node key limit j =
      let s = sign key node.pending_nonce limit in
      after_broadcast node key s node.broadcast
        (mark_sent key node.now s.hash node.pending_nonce s.raw j)

  -- `send` behind the gate: simulation, dry run, gas cap and gas limit (0 for none given).
  pub attempt : Config → Node → (key gas_limit : ℕ) → Journal → Outcome
  attempt cfg node key limit j =
      let gas = if limit == 0 then node.gas_estimate * cfg.gas_multiplier_bps / 10_000 else limit in
      let go = transmit node key gas j in
      if not node.simulates
      then record {
        journal = if cfg.live then mark_failure key node.now false j else j;
        status = simulation_failed;
        broadcasts = [];
      }
      else if not cfg.live
      then record { journal = j; status = dry_run; broadcasts = [] }
      else if not (cfg.max_fee_cap == 0) && ltb cfg.max_fee_cap node.fee
      then record { journal = j; status = gas_cap; broadcasts = [] }
      else go

  -- The receipt of a task confirmed earlier.
  abbrev pub confirmed_status : Option Bool → Status
  confirmed_status (some true) = done
  confirmed_status _ = inflight_still

  -- `send` on the gate's answer for the task.
  pub send_gated : Config → Node → (key gas_limit : ℕ) → Option Task → Gate → Journal → Outcome
  send_gated cfg node key limit (some t) reconcile_first j = reconcile cfg node key t j
  send_gated cfg node key limit (some t) is_confirmed j = record {
    journal = j;
    status = confirmed_status (node.receipt_of (hash_or t.hash));
    broadcasts = [];
  }
  send_gated cfg node key limit t is_quarantined j = record {
    journal = j;
    status = held;
    broadcasts = [];
  }
  send_gated cfg node key limit t in_backoff j = record {
    journal = j;
    status = backoff;
    broadcasts = [];
  }
  send_gated cfg node key limit t _ j = attempt cfg node key limit j

  -- `send`
  pub send : Config → Node → (key gas_limit : ℕ) → Journal → Outcome
  send cfg node key limit j =
      let t = lookup key j in send_gated cfg node key limit t (task_gate t node.now) j
