-- ===== src/Health/Limiter/Tests.antt =====
-- Alerts of one key at 0, 50 and 120, with repeats from 100 on.
use solonpad_contracts.Health.Limiter.Spaced.{IsSpaced, tried_of-IsSpaced}
use solonpad_contracts.Health.Limiter.{Raised, alert, tried_of}
use solonpad_contracts.Base.{List, [], arith, map, refl, ◌∷◌, ◌≡◌}

abbrev raised : List Raised
raised =
    record { key = 1; at = 0 } ∷ (record { key = 1; at = 50 } ∷ (record { key = 1; at = 120 } ∷ []))

tried_of-IsSpaced_example : IsSpaced 100 (tried_of 100 raised [])
tried_of-IsSpaced_example = tried_of-IsSpaced 100 raised [] (omega arith)

raised_run : map (λ r. r.at) (tried_of 100 raised []) ≡ 0 ∷ (120 ∷ [])
unfolding tried_of alert
raised_run = refl
