-- ===== src/Vault.antt =====
-- The vault worker (keepers/v3/vault/keeper.mjs: scan, executeWaiting, returnLiabilities). The chain with the
-- transaction sender and the quote service are outside this part. A reference is a number; the zero address of
-- a waiting order's stock is `none`.
pub mod Scanned
pub mod Returned
mod Tests
use solonpad_contracts.Base.{
  Bool, List, Option, [], false, if◌then◌else◌, leb, ltb, min, none, some, suc, true, zero, ℕ, ◌&&◌,
  ◌*◌, ◌+◌, ◌-◌, ◌/◌, ◌==◌, ◌^◌, ◌||◌, ◌∷◌,
}
use solonpad_contracts.Base.Dict.{Dict, erase, insert}

abbrev pub scale : ℕ
scale = 10 ^ 12

-- An event of the vault: an order that waits for funds, or one executed, with its outcome.
pub data Event : Type 0 where
  waiting_funds : (ref : ℕ) → Event
  executed : (ref outcome : ℕ) → Event

pub data Op : Type 0 where
  execute_funded : (ref : ℕ) → Op
  return_funds : (ref order_id min_out : ℕ) → Op

pub record Params : Type 0 where
  pub scan_chunk : ℕ
  pub start_lookback : ℕ
  pub min_return6 : ℕ
  pub max_return_short_bps : ℕ
  pub wait_alert_sec : ℕ
  pub max_per_tick : ℕ

pub record Quoted : Type 0 where
  pub expected_out : ℕ
  pub order_id : ℕ

pub record Chain (W : Type 0) : Type 0 where
  pub logs : (from to : ℕ) → List Event
  pub float_enabled : W → Bool
  pub free_settlement : W → ℕ
  pub is_settled : W → (ref : ℕ) → Bool
  pub waiting_amount : W → (ref : ℕ) → Option ℕ
  pub funding : W → (ref : ℕ) → ℕ
  pub proceeds : W → (ref : ℕ) → ℕ
  pub quote : W → (owed : ℕ) → Option Quoted
  pub call : W → Op → W × Bool

-- The journal records `scan`, `waiting` (when the order was seen) and `returnable`, with the world.
pub record State (W : Type 0) : Type 0 where
  pub world : W
  pub next : ℕ
  pub waiting : Dict ℕ
  pub returnable : Dict ℕ
  pub sends : List (W × Op)
  pub late : List ℕ

module _ {W : Type 0} (chain : Chain W) (p : Params) (now : ℕ) where
  -- An event in the journal.
  pub note_event : Event → State W → State W
  note_event (waiting_funds ref) s = record s { waiting = insert ref now s.waiting }
  note_event (executed ref outcome) s =
      if outcome == 0 then s else record s { returnable = insert ref outcome s.returnable }

  pub note_events : List Event → State W → State W
  note_events [] s = s
  note_events (e ∷ es) s = note_events es (note_event e s)

  -- The loop of `scan` over chunks, on fuel.
  pub scan_chunks : (fuel head : ℕ) → State W → State W
  scan_chunks zero head s = s
  scan_chunks (suc n) head s =
      let to = min head (s.next + p.scan_chunk - 1) in
      let noted = note_events (chain.logs s.next to) s in
      let rest = scan_chunks n head (record noted { next = to + 1 }) in
      if leb s.next head then rest else s

  pub send : Op → State W → State W × Bool
  send op s =
      let (w, confirmed) = chain.call s.world op in
      (record s { world = w; sends = (s.world, op) ∷ s.sends }, confirmed)

  -- An order that can be paid: by its own funding, or by the free float.
  abbrev pub is_fundable : (float_on : Bool) (free amount own : ℕ) → Bool
  is_fundable float_on free amount own = leb amount own || float_on && leb amount free

  -- An order that waits, with its amount.
  abbrev pub on_waiting : (float_on : Bool) (free ref seen : ℕ) → Option ℕ → State W → State W
  on_waiting float_on free ref seen none s = record s { waiting = erase ref s.waiting }
  on_waiting float_on free ref seen (some amount) s =
      let (after, confirmed) = send (execute_funded ref) s in
      let cleared =
        if confirmed then record after { waiting = erase ref after.waiting } else after in
      let late =
        if ltb p.wait_alert_sec (now - seen) then record s { late = ref ∷ s.late } else s in
      if is_fundable float_on free amount (chain.funding s.world ref) then cleared else late

  pub execute_one : (float_on : Bool) (free ref seen : ℕ) → State W → State W
  execute_one float_on free ref seen s =
      let turn = on_waiting float_on free ref seen (chain.waiting_amount s.world ref) s in
      if chain.is_settled s.world ref then record s { waiting = erase ref s.waiting } else turn

  pub execute_each : (float_on : Bool) (free : ℕ) → Dict ℕ → State W → State W
  execute_each float_on free [] s = s
  execute_each float_on free ((ref, seen) ∷ refs) s =
      execute_each float_on free refs (execute_one float_on free ref seen s)

  -- `executeWaiting`: the float is read once, before the loop.
  pub execute_waiting : State W → State W
  execute_waiting s =
      execute_each (chain.float_enabled s.world) (chain.free_settlement s.world) s.waiting s

  -- `owed` and `shortBps`
  abbrev pub owed_of : W → (ref : ℕ) → ℕ
  owed_of w ref = chain.funding w ref + chain.proceeds w ref

  pub short_bps : (owed expected : ℕ) → ℕ
  short_bps owed expected =
      let need = owed * scale in if leb need expected then 0 else (need - expected) * 10_000 / need

  abbrev pub on_quote : (ref owed : ℕ) → Option Quoted → State W → State W
  on_quote ref owed none s = record s { late = ref ∷ s.late }
  on_quote ref owed (some q) s =
      let (after, confirmed) = send (return_funds ref q.order_id q.expected_out) s in
      let cleared =
        if confirmed then record after { returnable = erase ref after.returnable } else after in
      if ltb p.max_return_short_bps (short_bps owed q.expected_out) then s else cleared

  -- A liability's turn; whether it counts against `maxPerTick`.
  pub return_one : (ref : ℕ) → State W → Bool × State W
  return_one ref s =
      let owed = owed_of s.world ref in
      let quoted = on_quote ref owed (chain.quote s.world owed) s in
      if owed == 0
      then (false, record s { returnable = erase ref s.returnable })
      else if ltb owed p.min_return6
      then (false, s)
      else (true, quoted)

  -- The loop of `returnLiabilities`, on the turns left of this tick.
  pub return_each : (left : ℕ) → Dict ℕ → State W → State W
  return_each left [] s = s
  return_each zero ((ref, outcome) ∷ refs) s = s
  return_each (suc left) ((ref, outcome) ∷ refs) s =
      let (counts, after) = return_one ref s in
      return_each (if counts then left else suc left) refs after

  -- `returnLiabilities`
  pub return_liabilities : State W → State W
  unfolding return_each
  return_liabilities s = return_each p.max_per_tick s.returnable s
