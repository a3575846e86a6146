-- ===== src/Journal/Tests.antt =====
-- Runs of the journal.
use solonpad_contracts.Base.{[], false, refl, ◌≡◌}
use solonpad_contracts.Base.Dict.{lookup}
use solonpad_contracts.Journal.{in_backoff, mark_failure, retry, task_gate, upsert_task}

-- A failed task waits for its backoff and may then be tried again.
failure_waits : task_gate (lookup 1 (mark_failure 1 100 false [])) 15_099 ≡ in_backoff
unfolding task_gate mark_failure upsert_task
failure_waits = refl

failure_retries : task_gate (lookup 1 (mark_failure 1 100 false [])) 15_100 ≡ retry
unfolding task_gate mark_failure upsert_task
failure_retries = refl
