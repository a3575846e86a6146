-- ===== src/Health/Alerts/Delivered.antt =====
-- What is remembered between runs, and that a failed delivery is tried again.
use solonpad_contracts.Base.{
  Bool-cases, List, Option, [], arith, false, get_elem?, if◌then◌else◌, includes, includes_not, inl,
  inr, none, or_else, refl, some, subst, suc, sym, true, zero, ℕ, ◌==◌, ◌∙◌, ◌∷◌, ◌≡◌, ◌≢◌, ◌≤◌,
  ◌⊎◌,
}
use solonpad_contracts.Base.Dict.{
  Dict, erase, insert, lookup, lookup-erase_self, lookup-insert_ne, lookup-insert_self,
}
use solonpad_contracts.Health.Alerts.{
  Alerted, CheckResult, collect_alerts, due_alerts, forget_delivery, is_due, stored_of,
}

abbrev pub checks : List CheckResult → List ℕ
checks [] = []
checks (r ∷ rs) = r.check ∷ checks rs

abbrev pub IsDistinct : List ℕ → Type 0
IsDistinct [] = Unit
IsDistinct (x ∷ xs) = (includes xs x ≡ false) × IsDistinct xs

-- What one result leaves stored of its check.
abbrev pub kept_of : CheckResult → (now repeat_ms : ℕ) → Option Alerted → Option Alerted
kept_of r now repeat prev =
    if r.level == 0
    then none
    else some (
        if is_due r.level now repeat prev
        then record { level = r.level; at = now }
        else or_else prev (record { level = r.level; at = now }))

stored_self :
    (r : CheckResult) (now repeat : ℕ) (prev : Option Alerted) (next : Dict Alerted)
    → lookup r.check next ≡ none
    → lookup r.check (stored_of r now repeat prev next) ≡ kept_of r now repeat prev
stored_self r now repeat prev next fresh = elim (Bool-cases (r.level == 0)) [
  | inl well ↦ rw well fresh
  | inr bad ↦ rw bad (
      lookup-insert_self r.check
        (if is_due r.level now repeat prev
          then record { level = r.level; at = now }
          else or_else prev (record { level = r.level; at = now }))
        next)
]

stored_other :
    (r : CheckResult) (now repeat k : ℕ) (prev : Option Alerted) (next : Dict Alerted)
    → k ≢ r.check
    → lookup k (stored_of r now repeat prev next) ≡ lookup k next
stored_other r now repeat k prev next ne = elim (Bool-cases (r.level == 0)) [
  | inl well ↦ rw well refl
  | inr bad ↦ rw bad (
      lookup-insert_ne k r.check
        (if is_due r.level now repeat prev
          then record { level = r.level; at = now }
          else or_else prev (record { level = r.level; at = now }))
        next ne)
]

collect_other :
    (rs : List CheckResult) (state : Dict Alerted) (now repeat k : ℕ) (next : Dict Alerted)
    → includes (checks rs) k ≡ false
    → lookup k (collect_alerts rs state now repeat next).1 ≡ lookup k next
unfolding collect_alerts
collect_other [] state now repeat k next h = refl
collect_other (r ∷ rs) state now repeat k next h =
    let (ne, rest) = includes_not r.check k (checks rs) h in
    let prev = lookup r.check state in
    collect_other rs state now repeat k (stored_of r now repeat prev next) rest
    ∙ stored_other r now repeat k prev next ne

-- The checks of a run that nothing was stored for yet.
abbrev pub AllFresh : List CheckResult → Dict Alerted → Type 0
AllFresh [] next = Unit
AllFresh (r ∷ rs) next = (lookup r.check next ≡ none) × AllFresh rs next

fresh_after :
    (r : CheckResult) (rs : List CheckResult) (now repeat : ℕ) (prev : Option Alerted)
    (next : Dict Alerted)
    → includes (checks rs) r.check ≡ false
    → AllFresh rs next
    → AllFresh rs (stored_of r now repeat prev next)
fresh_after r [] now repeat prev next h f = tt
fresh_after r (s ∷ rs) now repeat prev next h (f, fs) =
    let (ne, rest) = includes_not s.check r.check (checks rs) h in
    (
      stored_other r now repeat s.check prev next (λ e. ne (sym e)) ∙ f,
      fresh_after r rs now repeat prev next rest fs,
    )

collect_stores :
    (rs : List CheckResult) (state : Dict Alerted) (now repeat i : ℕ) (r : CheckResult)
    (next : Dict Alerted)
    → IsDistinct (checks rs)
    → AllFresh rs next
    → get_elem? rs i ≡ some r
    → lookup r.check (collect_alerts rs state now repeat next).1
      ≡ kept_of r now repeat (lookup r.check state)
unfolding collect_alerts
collect_stores [] state now repeat i r next d f h = absurd (ground arith)
collect_stores (s ∷ rs) state now repeat zero r next (absent, d) (f, fs) h =
    let same : s ≡ r = ground arith in
    let prev = lookup s.check state in
    subst
      (λ x.
        lookup x.check (collect_alerts (s ∷ rs) state now repeat next).1
        ≡ kept_of x now repeat (lookup x.check state))
      same
      (collect_other rs state now repeat s.check (stored_of s now repeat prev next) absent
        ∙ stored_self s now repeat prev next f)
collect_stores (s ∷ rs) state now repeat (suc i) r next (absent, d) (f, fs) h =
    let prev = lookup s.check state in
    collect_stores rs state now repeat i r (stored_of s now repeat prev next) d
      (fresh_after s rs now repeat prev next absent fs) h

all_fresh : (rs : List CheckResult) → AllFresh rs []
all_fresh [] = tt
all_fresh (r ∷ rs) = (refl, all_fresh rs)

-- After a run every check that is well is forgotten, and every other one is stored: with its level and the
-- time of the run when it was alerted, as it was otherwise.
pub due_alerts_stores :
    (results : List CheckResult) (state : Dict Alerted) (now repeat i : ℕ) (r : CheckResult)
    → IsDistinct (checks results)
    → get_elem? results i ≡ some r
    → lookup r.check (due_alerts results state now repeat).1
      ≡ kept_of r now repeat (lookup r.check state)
unfolding due_alerts
due_alerts_stores results state now repeat i r d h =
    collect_stores results state now repeat i r [] d (all_fresh results) h

restored :
    (o : Option Alerted) (state : Dict Alerted) (check : ℕ)
    → lookup check
        (elim o as (λ _. Dict Alerted) [ none ↦ erase check state | some a ↦ insert check a state ])
      ≡ o
restored none state check = lookup-erase_self check state
restored (some a) state check = lookup-insert_self check a state

still_due :
    (level now later repeat : ℕ) (prev forgot : Option Alerted)
    → forgot ≡ prev
    → now ≤ later
    → (is_due level now repeat prev ≡ false) ⊎ (is_due level later repeat forgot ≡ true)
still_due level now later repeat none forgot eq le = inr (rw eq refl)
still_due level now later repeat (some a) forgot eq le = rw eq (ground arith)

-- When a notice could not be delivered, the next run sees the check as this run did, and a check that is still
-- at its level is alerted again.
pub forget_delivery_retries :
    (state prev_state : Dict Alerted) (r : CheckResult) (now later repeat : ℕ)
    → now ≤ later
    → let forgot = lookup r.check (forget_delivery state prev_state r.check) in
      (forgot ≡ lookup r.check prev_state)
      × ((is_due r.level now repeat (lookup r.check prev_state) ≡ false)
          ⊎ (is_due r.level later repeat forgot ≡ true))
unfolding forget_delivery
forget_delivery_retries state prev_state r now later repeat le =
    let back = restored (lookup r.check prev_state) state r.check in
    let forgot = lookup r.check (forget_delivery state prev_state r.check) in
    (back, still_due r.level now later repeat (lookup r.check prev_state) forgot back le)
