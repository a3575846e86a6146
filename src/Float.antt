-- ===== src/Float.antt =====
-- The two floats' watch (keepers/v3/float/watch.mjs: decideFloat). The texts and steps of the alerts are left
-- out; an excess is a natural number where the source tests its sign first.
pub mod Balance
mod Tests
use solonpad_contracts.Base.{
  Bool, List, Option, [], false, if◌then◌else◌, ltb, min, none, not, some, ℕ, ◌&&◌, ◌*◌, ◌+◌, ◌-◌,
  ◌/◌, ◌^◌, ◌||◌, ◌∷◌,
}

abbrev pub e18 : ℕ
e18 = 10 ^ 18

pub record Snapshot : Type 0 where
  pub rh_free6 : ℕ
  pub arc_avail18 : ℕ
  pub rh_float_on : Bool
  pub hub_float_on : Bool
  pub returning : ℕ
  pub proceeds : ℕ
  pub vault_eth_wei : Option ℕ
  pub rh_waiting : ℕ

-- `FLOAT_DEFAULTS`
pub record FloatParams : Type 0 where
  pub target_rh6 : ℕ
  pub target_arc18 : ℕ
  pub l_run18 : ℕ
  pub band18 : ℕ
  pub drift_alert18 : ℕ
  pub vault_eth_low_wei : ℕ

pub data FloatAlert : Type 0 where
  rh_off arc_off rh_low arc_low drift stuck vault_eth_low waits_on_rh : FloatAlert

pub data Suggestion : Type 0 where
  none_needed : Suggestion
  rh_to_arc arc_to_rh : (usd : ℕ) → Suggestion

abbrev pub when : Bool → FloatAlert → List FloatAlert → List FloatAlert
when test a rest = if test then a ∷ rest else rest

abbrev pub is_below : Option ℕ → ℕ → Bool
is_below none low = false
is_below (some b) low = ltb b low

-- `alerts`
pub float_alerts : Snapshot → FloatParams → List FloatAlert
float_alerts s p =
    let rh18 = s.rh_free6 * 10 ^ 12 in
    let total = rh18 + s.arc_avail18 in
    let target = p.target_rh6 * 10 ^ 12 + p.target_arc18 in
    when (not s.rh_float_on) rh_off (
      when (not s.hub_float_on) arc_off (
        when (ltb rh18 p.l_run18) rh_low (
          when (ltb s.arc_avail18 p.l_run18) arc_low (
            when (ltb (total + p.drift_alert18) target) drift (
              when (ltb 0 s.returning || ltb 0 s.proceeds) stuck (
                when (is_below s.vault_eth_wei p.vault_eth_low_wei) vault_eth_low
                  (when (ltb 0 s.rh_waiting) waits_on_rh [])))))))

-- `suggestion`: the excess of one side, or the lack of the other if that is less.
pub suggest : Snapshot → FloatParams → Suggestion
suggest s p =
    let rh18 = s.rh_free6 * 10 ^ 12 in
    let target_rh18 = p.target_rh6 * 10 ^ 12 in
    if ltb (target_rh18 + p.band18) rh18 && ltb s.arc_avail18 p.target_arc18
    then rh_to_arc (min (rh18 - target_rh18) (p.target_arc18 - s.arc_avail18) / e18)
    else if ltb (p.target_arc18 + p.band18) s.arc_avail18 && ltb rh18 target_rh18
    then arc_to_rh (min (s.arc_avail18 - p.target_arc18) (target_rh18 - rh18) / e18)
    else none_needed
