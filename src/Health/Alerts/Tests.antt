-- ===== src/Health/Alerts/Tests.antt =====
-- A check that fails again.
use solonpad_contracts.Base.{List, [], arith, false, refl, some, true, ◌∷◌, ◌≡◌, ◌⊎◌}
use solonpad_contracts.Base.Dict.{Dict, lookup}
use solonpad_contracts.Health.Alerts.{Alerted, CheckResult, due_alerts, forget_delivery, is_due}
use solonpad_contracts.Health.Alerts.Delivered.{due_alerts_stores, forget_delivery_retries}

abbrev results : List CheckResult
results = record { check = 1; level = 2 } ∷ (record { check = 2; level = 0 } ∷ [])

abbrev stored : Dict Alerted
stored = (1, record { level = 2; at = 100 }) ∷ []

due_alerts_stores_example :
    lookup 1 (due_alerts results stored 200 3_600).1 ≡ some (record { level = 2; at = 100 })
due_alerts_stores_example =
    due_alerts_stores results stored 200 3_600 0 (record { check = 1; level = 2 })
      (refl, (refl, tt)) refl

forget_delivery_retries_example :
    let forgot = lookup 1 (forget_delivery [] stored 1) in
    (forgot ≡ lookup 1 stored)
    × ((is_due 1 200 3_600 (lookup 1 stored) ≡ false) ⊎ (is_due 1 300 3_600 forgot ≡ true))
forget_delivery_retries_example =
    forget_delivery_retries [] stored (record { check = 1; level = 1 }) 200 300 3_600 (omega arith)
