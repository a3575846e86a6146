-- ===== src/Ingress/Evidence/Tests.antt =====
-- A native collection and its view.
use solonpad_contracts.Base.{
  List, [], false, refl, some, true, ◌*◌, ◌+◌, ◌<◌, ◌^◌, ◌∷◌, ◌≡◌, ◌≢◌, ◌⊎◌,
}
use solonpad_contracts.Ingress.Evidence.{
  Evidence, Transfer, evidence_of, received, total_value, view_scale,
}
use solonpad_contracts.Ingress.Evidence.Sums.{evidence_of_lem}

abbrev receipt : List Transfer
receipt = record { token = 36; to = 1; value = 5; log_index = 9 } ∷ []

abbrev collected : Evidence
collected = record { token = 0; amount = 5 * 10 ^ 12; log_index = 9; mismatch = false }

native_evidence : evidence_of 1 36 (5 * 10 ^ 12) receipt 0 ≡ some collected
unfolding evidence_of received
native_evidence = refl

evidence_of_lem_example :
    (0 < collected.amount)
    × (collected.token ≡ 0)
    × ((collected.token ≡ 0) ⊎ (collected.amount ≡ total_value (received 0 1 receipt)))
    × ((collected.token ≢ 0)
        ⊎ ((collected.mismatch ≡ true)
            ⊎ ((collected.amount < total_value (received 36 1 receipt) * view_scale + view_scale)
                × (total_value (received 36 1 receipt) * view_scale
                    < collected.amount + view_scale))))
evidence_of_lem_example = evidence_of_lem 1 36 (5 * 10 ^ 12) receipt 0 collected native_evidence
