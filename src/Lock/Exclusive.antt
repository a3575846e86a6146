-- ===== src/Lock/Exclusive.antt =====
-- Two writers never hold one lock.
use solonpad_contracts.Base.{
  Bool, Bool-cases, arith, false, inl, inr, ltb, none, refl, some, true, ℕ, ◌&&◌, ◌+◌, ◌<◌, ◌==◌,
  ◌≡◌, ◌≢◌, ◌⊎◌,
}
use solonpad_contracts.Lock.{
  LockDir, held_at, is_alive, owns, stale_ms, taken_by, try_lock, unlock, with_lock,
}

-- A lock is taken only when it is free, its owner is dead, or it is stale; whoever takes it owns it and nobody
-- else does; and one that is held by a live owner for less than the stale time is left as it is.
pub try_lock_exclusive :
    (alive : ℕ → Bool) (pid other now stale made at : ℕ)
    → pid ≢ other
    → alive other ≡ true
    → now < at + stale
    → let held : LockDir = some (record { made_at = made; owner = some (other, at) }) in
      (try_lock alive pid now stale held ≡ (false, held))
      × (unlock pid held ≡ held)
      × (owns pid (try_lock alive pid now stale none).1 ≡ true)
      × (owns other (try_lock alive pid now stale none).1 ≡ false)
unfolding try_lock unlock
try_lock_exclusive alive pid other now stale made at ne lives fresh =
    let kept : (alive other && ltb now (at + stale)) ≡ true = ground arith in
    let theirs : (other == pid) ≡ false = ground arith in
    let mine : (pid == pid) ≡ true = ground arith in
    let not_theirs : (pid == other) ≡ false = ground arith in
    (rw kept refl, rw theirs refl, mine, not_theirs)

-- Work that keeps the lock file leaves the lock free again, and work that was refused never ran and changed
-- nothing.
pub with_lock_releases :
    {A : Type 0} (alive : ℕ → Bool) (pid now : ℕ) (work : LockDir → A × LockDir) (d : LockDir)
    → (work (taken_by pid now)).1 ≡ taken_by pid now
    → (with_lock alive pid now work d ≡ (some (work (taken_by pid now)).0, none))
      ⊎ (with_lock alive pid now work d ≡ (none, d))
unfolding with_lock try_lock unlock
with_lock_releases alive pid now work none keeps =
    let mine : (pid == pid) ≡ true = ground arith in inl (rw keeps (rw mine refl))
with_lock_releases alive pid now work (some h) keeps =
    let mine : (pid == pid) ≡ true = ground arith in
    elim (Bool-cases (is_alive alive now h && ltb now (held_at h + stale_ms))) [
      | inl busy ↦ inr (rw busy refl)
      | inr free ↦ inl (rw free (rw keeps (rw mine refl)))
    ]
