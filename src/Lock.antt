-- ===== src/Lock.antt =====
-- The one-writer lock of a signing account (keepers/v3/lib/lock.mjs: tryLock, unlock, withLock). The lock
-- directory is the state; a process is a number, and which processes live is a reading. The directory's own
-- time stands for a missing owner file.
pub mod Exclusive
mod Tests
use solonpad_contracts.Base.{
  Bool, Option, false, if◌then◌else◌, ltb, none, some, true, ℕ, ◌&&◌, ◌*◌, ◌+◌, ◌==◌,
}

-- The lock directory: when it was made, and its owner file.
pub record Held : Type 0 where
  pub made_at : ℕ
  pub owner : Option (ℕ × ℕ)

abbrev pub LockDir : Type 0
LockDir = Option Held

abbrev pub stale_ms : ℕ
stale_ms = 20 * 60_000

-- `info?.at ?? statSync(path).mtimeMs`
abbrev pub held_at : Held → ℕ
held_at h = elim h.owner [ none ↦ h.made_at | some o ↦ o.1 ]

-- `alive`
abbrev pub is_alive : (alive : ℕ → Bool) → (now : ℕ) → Held → Bool
is_alive alive now h = elim h.owner [ none ↦ ltb now (h.made_at + 60_000) | some o ↦ alive o.0 ]

abbrev pub taken_by : (pid now : ℕ) → LockDir
taken_by pid now = some (record { made_at = now; owner = some (pid, now) })

-- `tryLock`, with no other process between its two `mkdirSync`.
pub try_lock : (alive : ℕ → Bool) → (pid now stale : ℕ) → LockDir → Bool × LockDir
try_lock alive pid now stale none = (true, taken_by pid now)
try_lock alive pid now stale (some h) =
    if is_alive alive now h && ltb now (held_at h + stale)
    then (false, some h)
    else (true, taken_by pid now)

-- `readOwner(path)?.pid === process.pid`
abbrev pub owns : ℕ → LockDir → Bool
owns pid none = false
owns pid (some h) = elim h.owner [ none ↦ false | some o ↦ o.0 == pid ]

-- `unlock`
pub unlock : (pid : ℕ) → LockDir → LockDir
unlock pid d = if owns pid d then none else d

-- `withLock`: the work runs only under the lock, and the lock is given back however the work ends.
pub with_lock :
    {A : Type 0} (alive : ℕ → Bool) (pid now : ℕ)
    → (work : LockDir → A × LockDir) → LockDir
    → Option A × LockDir
with_lock alive pid now work d =
    let (locked, held) = try_lock alive pid now stale_ms d in
    let (value, after) = work held in
    if locked then (some value, unlock pid after) else (none, held)
