-- ===== src/Lock/Tests.antt =====
-- Two processes and one lock.
use solonpad_contracts.Base.{Bool, none, refl, some, true, ◌≡◌, ◌⊎◌}
use solonpad_contracts.Lock.{LockDir, with_lock}
use solonpad_contracts.Lock.Exclusive.{with_lock_releases}

abbrev work : LockDir → Bool × LockDir
work d = (true, d)

with_lock_releases_example :
    (with_lock (λ p. true) 3 100 work none ≡ (some true, none))
    ⊎ (with_lock (λ p. true) 3 100 work none ≡ (none, none))
with_lock_releases_example = with_lock_releases (λ p. true) 3 100 work none refl
