-- ===== src/Journal.antt =====
-- The journal's tasks and the gate in front of a send (keepers/v3/lib/journal.mjs). A key is a number
-- that stands for the text of `taskKey`; hashes and signed transactions are numbers; the error texts,
-- notes and the append-only event log are left out. Every operation saves the whole state, so a state
-- is what a restart reads back.
pub mod Laws
mod Tests
use solonpad_contracts.Base.{
  Bool, Option, [], false, if◌then◌else◌, leb, none, some, suc, true, zero, ℕ, ◌+◌, ◌||◌, ◌∷◌,
}
use solonpad_contracts.Base.Dict.{Dict, insert, lookup}

-- `TaskState`
pub data TaskState : Type 0 where
  ready sent confirmed retryable quarantined : TaskState

pub record Task : Type 0 where
  pub state : TaskState
  pub attempts : ℕ
  pub hash : Option ℕ
  pub nonce : ℕ
  pub raw : Option ℕ
  pub sent_at : ℕ
  pub next_attempt_at : ℕ
  pub confirmed_at : ℕ
  pub created_at : ℕ
  pub updated_at : ℕ

abbrev pub Journal : Type 0
Journal = Dict Task

abbrev pub max_attempts : ℕ
max_attempts = 5

-- `BACKOFF_MS[Math.min(attempts - 1, 2)]`
abbrev pub backoff_ms : (attempts : ℕ) → ℕ
backoff_ms zero = 15_000
backoff_ms (suc zero) = 15_000
backoff_ms (suc (suc zero)) = 30_000
backoff_ms (suc (suc (suc n))) = 60_000

abbrev pub fresh_task : ℕ → Task
fresh_task now = record {
  state = ready;
  attempts = 0;
  hash = none;
  nonce = 0;
  raw = none;
  sent_at = 0;
  next_attempt_at = 0;
  confirmed_at = 0;
  created_at = now;
  updated_at = now;
}

-- `this.state.tasks[key] ?? { ... }`
abbrev pub task_or_new : ℕ → Option Task → Task
task_or_new now none = fresh_task now
task_or_new now (some t) = t

-- `upsertTask`: the patch over the previous task, and the time of the update.
pub upsert_task : ℕ → (now : ℕ) → (Task → Task) → Journal → Journal
upsert_task key now patch j =
    let t = patch (task_or_new now (lookup key j)) in insert key (record t { updated_at = now }) j

-- The patches of `markSent`, `markConfirmed` and `reopen`.
abbrev pub sent_task : (now hash nonce raw : ℕ) → Task → Task
sent_task now h n r t = record t {
  state = sent;
  hash = some h;
  nonce = n;
  raw = some r;
  sent_at = now;
}

abbrev pub confirmed_task : (now hash : ℕ) → Task → Task
confirmed_task now h t = record t {
  state = confirmed;
  hash = some h;
  raw = none;
  confirmed_at = now;
}

abbrev pub reopened_task : Task → Task
reopened_task t = record t { state = ready; attempts = 0; next_attempt_at = 0 }

-- `markSent`
unfoldable pub mark_sent : (key now hash nonce raw : ℕ) → Journal → Journal
unfolding upsert_task
mark_sent key now h n r = upsert_task key now (sent_task now h n r)

-- `markConfirmed`
unfoldable pub mark_confirmed : (key now hash : ℕ) → Journal → Journal
unfolding upsert_task
mark_confirmed key now h = upsert_task key now (confirmed_task now h)

-- The patch of `markFailure`.
abbrev pub failed_task : (quarantine : Bool) (now : ℕ) → Task → Task
failed_task quarantine now t =
    let n = t.attempts + 1 in
    record t {
      state = if quarantine || leb max_attempts n then quarantined else retryable;
      attempts = n;
      raw = none;
      next_attempt_at = now + backoff_ms n;
    }

-- `markFailure`
unfoldable pub mark_failure : (key now : ℕ) (quarantine : Bool) → Journal → Journal
unfolding upsert_task
mark_failure key now quarantine = upsert_task key now (failed_task quarantine now)

-- `reopen`
pub reopen : (key now : ℕ) → Journal → Journal
unfolding upsert_task
reopen key now = upsert_task key now reopened_task

abbrev is_sent : TaskState → Bool
is_sent sent = true
is_sent _ = false

-- `inflight`, with the keys.
pub inflight : Journal → Journal
inflight [] = []
inflight ((k, t) ∷ j) = let rest = inflight j in if is_sent t.state then (k, t) ∷ rest else rest

pub data Gate : Type 0 where
  new_task retry ready_task is_confirmed is_quarantined in_backoff reconcile_first : Gate

abbrev gate_of : TaskState → Task → ℕ → Gate
gate_of confirmed t now = is_confirmed
gate_of quarantined t now = is_quarantined
gate_of sent t now = reconcile_first
gate_of retryable t now = if leb t.next_attempt_at now then retry else in_backoff
gate_of ready t now = ready_task

-- `taskGate`
unfoldable pub task_gate : Option Task → (now : ℕ) → Gate
task_gate none now = new_task
task_gate (some t) now = gate_of t.state t now

-- `gate.go`
abbrev pub goes : Gate → Bool
goes new_task = true
goes retry = true
goes ready_task = true
goes _ = false
