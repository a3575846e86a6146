-- ===== src/Ingress/Evidence/Sums.antt =====
-- Evidence states what was received.
use solonpad_contracts.Base.{
  Bool-cases, List, [], arith, false, inl, inr, some, suc, true, zero, ℕ, ◌*◌, ◌+◌, ◌<◌, ◌∷◌, ◌≡◌,
  ◌≢◌, ◌⊎◌,
}
use solonpad_contracts.Ingress.Evidence.{
  Evidence, Transfer, evidence_of, is_mismatch, received, total_value, view_scale,
}

native_close :
    (delta : ℕ) (views : List Transfer)
    → is_mismatch delta views ≡ false
    → (delta < total_value views * view_scale + view_scale)
      × (total_value views * view_scale < delta + view_scale)
native_close delta [] h = absurd (ground arith)
native_close delta (t ∷ ts) h = ground arith

-- Evidence is given only for a positive amount: for a token exactly what its transfers to the recipient add up
-- to, and for native money the balance delta, which without a mismatch is within one 6-decimal unit of what
-- the view's transfers add up to.
pub evidence_of_lem :
    (recipient view delta : ℕ) (transfers : List Transfer) (token : ℕ) (e : Evidence)
    → evidence_of recipient view delta transfers token ≡ some e
    → (0 < e.amount)
      × (e.token ≡ token)
      × ((token ≡ 0) ⊎ (e.amount ≡ total_value (received token recipient transfers)))
      × ((token ≢ 0)
          ⊎ ((e.mismatch ≡ true)
              ⊎ ((e.amount
                    < total_value (received view recipient transfers) * view_scale + view_scale)
                  × (total_value (received view recipient transfers) * view_scale
                      < e.amount + view_scale))))
unfolding evidence_of
evidence_of_lem recipient view delta transfers zero e h =
    let views = received view recipient transfers in
    elim (Bool-cases (is_mismatch delta views)) [
      | inl bad ↦ ground (arith, bad)
      | inr fine ↦ let near = native_close delta views fine in ground (arith, fine, near)
    ]
evidence_of_lem recipient view delta transfers (suc t) e h = ground arith
