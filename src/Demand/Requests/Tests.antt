-- ===== src/Demand/Requests/Tests.antt =====
-- A merge into a file of two requesters.
use solonpad_contracts.Base.{[], arith, inl, refl, some, ℕ, ◌+◌, ◌<◌, ◌∷◌, ◌≡◌}
use solonpad_contracts.Demand.Requests.{Requests, merge_request}
use solonpad_contracts.Demand.Requests.Stamps.{
  AllDicts, IsDict, merge_request_keeps, merge_request_stamps, stamp_of, unexpired,
}

abbrev file : Requests
file = (1, (4, 450) ∷ []) ∷ ((2, (5, 20) ∷ []) ∷ [])

file-IsDict : IsDict file
file-IsDict = (refl, (refl, tt))

file-AllDicts : AllDicts file
file-AllDicts = ((refl, tt), ((refl, tt), tt))

merge_request_stamps_example :
    (t : ℕ) × (stamp_of 2 5 (merge_request 700 600 1_800 2 (5 ∷ []) file).0 ≡ some t)
    × (700 < t + 600)
merge_request_stamps_example =
    merge_request_stamps 700 600 1_800 2 5 (5 ∷ []) file (omega arith) file-IsDict refl

merge_request_keeps_example :
    stamp_of 1 4 (merge_request 700 600 1_800 2 (5 ∷ []) file).0
    ≡ unexpired 700 1_800 (stamp_of 1 4 file)
merge_request_keeps_example =
    merge_request_keeps 700 600 1_800 2 1 4 (5 ∷ []) file file-IsDict file-AllDicts (inl cc)
