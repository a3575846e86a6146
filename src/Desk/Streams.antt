-- ===== src/Desk/Streams.antt =====
-- The progress of one Desk reward stream (keepers/v3/desk/decide.mjs: epochOver, perCardRaw, usdOf,
-- kind0Stage).
pub mod Stages
mod Tests
use solonpad_contracts.Base.{
  Bool, Option, false, if◌then◌else◌, inl, inr, leb, ltb, none, not, refl, some, ℕ, ◌&&◌, ◌*◌, ◌+◌,
  ◌/◌, ◌==◌, ◌^◌, ◌≡◌, ◌⊎◌,
}

abbrev pub day : ℕ
day = 86_400

abbrev pub p27 : ℕ
p27 = 10 ^ 27

abbrev pub e18 : ℕ
e18 = 10 ^ 18

abbrev pub usdc_grid : ℕ
usdc_grid = 10 ^ 12

-- `epochOver`
unfoldable pub epoch_over : (now epoch : ℕ) → Bool
epoch_over now epoch = leb ((epoch + 1) * day) now

pub data Kind : Type 0 where
  usdc_quoted stock_quoted : Kind

pub Kind-cases : (kind : Kind) → (kind ≡ usdc_quoted) ⊎ (kind ≡ stock_quoted)
Kind-cases usdc_quoted = inl refl
Kind-cases stock_quoted = inr refl

-- `perCardRaw`
pub per_card_raw : Kind → (counter total_credit27 purchased_raw : ℕ) → ℕ
per_card_raw stock_quoted counter total purchased = counter / p27
per_card_raw usdc_quoted counter total purchased =
    if total == 0 then 0 else counter * purchased / total

-- `usdOf`
unfoldable pub usd_of : (raw price18 : ℕ) → ℕ
usd_of raw price = raw * price / e18

-- The chain views of a USDC-quoted stream.
pub record Views : Type 0 where
  pub now : ℕ
  pub epoch : ℕ
  pub budget : ℕ
  pub is_sealed : Bool
  pub has_source : Bool
  pub has_entry : Bool
  pub delivered : ℕ
  pub purchased_raw : ℕ
  pub available : ℕ
  pub pending : ℕ
  pub sealed_for : Option ℕ
  pub unbuyable_after_sec : ℕ

pub data Stage : Type 0 where
  wait_epoch empty_budget seal create_entry find_entry sync ready unbuyable await_round : Stage

-- `sealedFor != null && sealedFor > unbuyableAfterSec`
abbrev pub sealed_longer : Option ℕ → ℕ → Bool
sealed_longer none limit = false
sealed_longer (some sec) limit = ltb limit sec

-- `kind0Stage`
unfoldable pub kind0_stage : Views → Stage
unfolding epoch_over
kind0_stage v =
    let bought = v.pending == 0 && ltb v.available usdc_grid in
    if not (epoch_over v.now v.epoch)
    then wait_epoch
    else if not v.is_sealed
    then (if ltb v.budget usdc_grid
        then empty_budget
        else if v.has_source
        then seal
        else create_entry)
    else if not v.has_entry
    then find_entry
    else if ltb v.purchased_raw v.delivered
    then sync
    else if bought && ltb 0 v.purchased_raw
    then ready
    else if bought && v.delivered == 0 && sealed_longer v.sealed_for v.unbuyable_after_sec
    then unbuyable
    else await_round
