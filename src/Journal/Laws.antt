-- ===== src/Journal/Laws.antt =====
-- What the journal's operations guarantee.
use solonpad_contracts.Base.{
  Bool, Option, Option-cases, arith, inl, inr, none, some, sym, true, ℕ, ℕ_discrete, ◌<◌, ◌∙◌, ◌≡◌,
  ◌≢◌,
}
use solonpad_contracts.Base.Dict.{lookup, lookup-insert_ne, lookup-insert_self}
use solonpad_contracts.Journal.{
  Journal, Task, TaskState, confirmed_task, failed_task, fresh_task, goes, mark_confirmed,
  mark_failure, mark_sent, max_attempts, quarantined, reopen, reopened_task, sent, sent_task,
  task_gate, task_or_new, upsert_task,
}

-- What is true of every task that the operations write: the attempts are bounded, a task that used
-- them all is quarantined, and a task holds a signed transaction exactly while it is in flight.
pub record IsValid (t : Task) : Type 0 where
  pub bounded : t.state ≢ quarantined → t.attempts < max_attempts
  pub raw_sent : t.state ≡ sent → (t.raw ≢ none) × (t.hash ≢ none)
  pub raw_gone : t.state ≢ sent → t.raw ≡ none

abbrev pub IsValidAt : ℕ → Journal → Type 0
IsValidAt k j = (t : Task) → lookup k j ≡ some t → IsValid t

abbrev pub AllValid : Journal → Type 0
AllValid j = (k : ℕ) → IsValidAt k j

-- The state of a key's task.
abbrev pub lookup_state : ℕ → Journal → Option TaskState
lookup_state k j = elim (lookup k j) [ none ↦ none | some t ↦ some t.state ]

pub lookup-upsert_task :
    (k now : ℕ) (p : Task → Task) (j : Journal)
    → lookup k (upsert_task k now p j)
      ≡ some (let t = p (task_or_new now (lookup k j)) in record t { updated_at = now })
unfolding upsert_task
lookup-upsert_task k now p j = lookup-insert_self k _ j

pub lookup-upsert_task_ne :
    (i k now : ℕ) (p : Task → Task) (j : Journal)
    → i ≢ k
    → lookup i (upsert_task k now p j) ≡ lookup i j
unfolding upsert_task
lookup-upsert_task_ne i k now p j h = lookup-insert_ne i k _ j h

fresh-IsValid : (now : ℕ) → IsValid (fresh_task now)
fresh-IsValid now = ground arith

task_or_new-IsValid :
    (k now : ℕ) (j : Journal) → AllValid j → IsValid (task_or_new now (lookup k j))
task_or_new-IsValid k now j v = elim (Option-cases (lookup k j)) [
  | inl e ↦ rw e (fresh-IsValid now)
  | inr (t, e) ↦ rw e (v k t e)
]

-- A patch that makes a valid task of the key's task keeps the whole journal valid.
upsert_task-AllValid :
    (k now : ℕ) (p : Task → Task) (j : Journal)
    → IsValid (p (task_or_new now (lookup k j)))
    → AllValid j
    → AllValid (upsert_task k now p j)
upsert_task-AllValid k now p j good v i t e = elim (ℕ_discrete i k) [
  | yes same ↦ ground (arith, lookup-upsert_task k now p j, good)
  | no other ↦ v i t (sym (lookup-upsert_task_ne i k now p j other) ∙ e)
]

pub mark_sent-AllValid :
    (k now h n r : ℕ) (j : Journal)
    → goes (task_gate (lookup k j) now) ≡ true
    → AllValid j
    → AllValid (mark_sent k now h n r j)
unfolding mark_sent task_gate
mark_sent-AllValid k now h n r j go v =
    let old = task_or_new-IsValid k now j v in
    upsert_task-AllValid k now (sent_task now h n r) j
      (ground (arith, old, Option-cases (lookup k j))) v

pub mark_confirmed-AllValid :
    (k now h : ℕ) (j : Journal)
    → lookup_state k j ≢ some quarantined
    → AllValid j
    → AllValid (mark_confirmed k now h j)
unfolding mark_confirmed
mark_confirmed-AllValid k now h j nq v =
    let old = task_or_new-IsValid k now j v in
    upsert_task-AllValid k now (confirmed_task now h) j
      (ground (arith, old, Option-cases (lookup k j))) v

pub mark_failure-AllValid :
    (k now : ℕ) (q : Bool) (j : Journal) → AllValid j → AllValid (mark_failure k now q j)
unfolding mark_failure
mark_failure-AllValid k now q j v =
    let old = task_or_new-IsValid k now j v in
    upsert_task-AllValid k now (failed_task q now) j
      (ground (arith, old, Option-cases (lookup k j))) v

pub reopen-AllValid :
    (k now : ℕ) (j : Journal)
    → lookup_state k j ≢ some sent
    → AllValid j
    → AllValid (reopen k now j)
unfolding reopen
reopen-AllValid k now j ns v =
    let old = task_or_new-IsValid k now j v in
    upsert_task-AllValid k now reopened_task j (ground (arith, old, Option-cases (lookup k j))) v
