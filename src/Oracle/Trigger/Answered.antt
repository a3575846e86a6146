-- ===== src/Oracle/Trigger/Answered.antt =====
-- A push answers what it was for.
use solonpad_contracts.Base.{
  Bool, Bool-cases, List, Option, [], arith, false, includes, inl, inr, refl, some, true, ℕ, ◌<◌,
  ◌∙◌, ◌∷◌, ◌≡◌, ◌≢◌, ◌≤◌,
}
use solonpad_contracts.Base.Dict.{Dict, lookup, lookup-insert_ne, lookup-insert_self}
use solonpad_contracts.Oracle.Trigger.{
  Demand, IsMerged, LastPush, Observation, OracleParams, Reading, asked_at, demand_asks, moved_bps,
  not_asked, push_triggers, read, record_one, record_push, unreadable,
}

moved_bps_self : (a bps : ℕ) → moved_bps a a bps ≡ false
unfolding moved_bps
moved_bps_self a bps = ground arith

record_one_keeps :
    (at : ℕ) (block : Option ℕ) (v u : ℕ) (r : Reading) (last : Dict LastPush)
    → u ≢ v
    → lookup u (record_one at block v r last) ≡ lookup u last
unfolding record_one
record_one_keeps at block v u unreadable last h = refl
record_one_keeps at block v u (read o _) last h = lookup-insert_ne u v _ last h

record_push_keeps :
    (us : List ℕ) (obs : ℕ → Reading) (at : ℕ) (block : Option ℕ) (last : Dict LastPush) (u : ℕ)
    → includes us u ≡ false
    → lookup u (record_push us obs at block last) ≡ lookup u last
unfolding record_push
record_push_keeps [] obs at block last u h = refl
record_push_keeps (v ∷ us) obs at block last u h =
    record_push_keeps us obs at block (record_one at block v (obs v) last) u (ground arith)
    ∙ record_one_keeps at block v u (obs v) last (ground arith)

lookup-record_one :
    (at : ℕ) (block : Option ℕ) (u : ℕ) (o : Observation) (updated : ℕ) (last : Dict LastPush)
    → lookup u (record_one at block u (read o updated) last)
      ≡ some (record { seen = o; pushed_at = at; l1_block = block })
unfolding record_one
lookup-record_one at block u o updated last = lookup-insert_self u _ last

-- After a push the record of every stock that was pushed and read is its observation at the push.
pub lookup-record_push :
    (us : List ℕ) (obs : ℕ → Reading) (at : ℕ) (block : Option ℕ) (last : Dict LastPush) (u : ℕ)
    {o : Observation} {updated : ℕ}
    → includes us u ≡ true
    → obs u ≡ read o updated
    → lookup u (record_push us obs at block last)
      ≡ some (record { seen = o; pushed_at = at; l1_block = block })
unfolding record_push
lookup-record_push [] obs at block last u h r = cc
lookup-record_push (v ∷ us) obs at block last u {o} {updated} h r =
    let last' = record_one at block v (obs v) last in
    elim (Bool-cases (includes us u)) [
      | inl later ↦ lookup-record_push us obs at block last' u later r
      | inr not_later ↦
          let same : v ≡ u = ground (arith, not_later) in
          record_push_keeps us obs at block last' u not_later
          ∙ rw same (rw r (lookup-record_one at block u o updated last))
    ]

-- Right after a push no stock that it carried at a positive price has a trigger left, and no demand made up to
-- then asks for it again: the same observation, read again at that time, is not due.
pub push_answers :
    (p : OracleParams) (us : List ℕ) (obs : ℕ → Reading) (at : ℕ) (block : Option ℕ)
    (last : Dict LastPush) (u : ℕ) (session_open : Bool) (d : Demand) {o : Observation}
    {updated : ℕ}
    → IsMerged p
    → includes us u ≡ true
    → obs u ≡ read o updated
    → 0 < o.price18
    → asked_at d u ≤ at
    → let l = lookup u (record_push us obs at block last) in
      (push_triggers p at session_open l o updated ≡ [])
      × (demand_asks p (some d) u l o ≡ not_asked)
unfolding push_triggers demand_asks
push_answers p us obs at block last u open_now d {o} {updated} m i r pos asked =
    let known = lookup-record_push us obs at block last u i r in
    rw known (ground (arith, moved_bps_self o.price18 p.deviation_bps), ground arith)
