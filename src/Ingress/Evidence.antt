-- ===== src/Ingress/Evidence.antt =====
-- The evidence of a collection (keepers/v3/ingress/decide.mjs: evidenceFromCollect). A token is a number, the
-- native one 0, and `view` the token of its 6-decimal view; the transfers are those of the receipt, in order.
pub mod Sums
mod Tests
use solonpad_contracts.Base.{
  Bool, List, Option, [], false, if◌then◌else◌, leb, ltb, none, some, true, ℕ, ◌&&◌, ◌*◌, ◌+◌, ◌-◌,
  ◌==◌, ◌^◌, ◌∷◌,
}

abbrev pub view_scale : ℕ
view_scale = 10 ^ 12

pub record Transfer : Type 0 where
  pub token : ℕ
  pub to : ℕ
  pub value : ℕ
  pub log_index : ℕ

pub record Evidence : Type 0 where
  pub token : ℕ
  pub amount : ℕ
  pub log_index : ℕ
  pub mismatch : Bool

-- `transfers.filter(...)`
pub received : (token recipient : ℕ) → List Transfer → List Transfer
received token recipient [] = []
received token recipient (t ∷ ts) =
    let rest = received token recipient ts in
    if t.token == token && t.to == recipient then t ∷ rest else rest

-- `logs.reduce((s, t) => s + t.value, 0n)`
abbrev pub total_value : List Transfer → ℕ
total_value [] = 0
total_value (t ∷ ts) = t.value + total_value ts

abbrev pub first_index : List Transfer → ℕ
first_index [] = 0
first_index (t ∷ ts) = t.log_index

-- `mismatch`: no view transfer, or a difference of a 6-decimal unit or more.
abbrev pub is_mismatch : (native_delta : ℕ) → List Transfer → Bool
is_mismatch delta [] = true
is_mismatch delta (t ∷ ts) =
    let view18 = total_value (t ∷ ts) * view_scale in
    let diff = if ltb view18 delta then delta - view18 else view18 - delta in leb view_scale diff

-- The loop body: the evidence of one token, if it has any. A native delta of 0 or less is 0.
pub evidence_of : (recipient view native_delta : ℕ) → List Transfer → (token : ℕ) → Option Evidence
evidence_of recipient view delta transfers token =
    let views = received view recipient transfers in
    let logs = received token recipient transfers in
    if token == 0
    then (if delta == 0
        then none
        else some (record {
          token = 0;
          amount = delta;
          log_index = first_index views;
          mismatch = is_mismatch delta views;
        }))
    else if total_value logs == 0
    then none
    else some (record {
      token = token;
      amount = total_value logs;
      log_index = first_index logs;
      mismatch = false;
    })

-- `evidenceFromCollect`
pub evidence_from_collect :
    (recipient view native_delta : ℕ) → List Transfer → List ℕ → List Evidence
evidence_from_collect recipient view delta transfers [] = []
evidence_from_collect recipient view delta transfers (t ∷ ts) =
    let rest = evidence_from_collect recipient view delta transfers ts in
    elim (evidence_of recipient view delta transfers t) [ none ↦ rest | some e ↦ e ∷ rest ]
