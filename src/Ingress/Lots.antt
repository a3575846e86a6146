-- ===== src/Ingress/Lots.antt =====
-- The lots of the fee-ingress keeper and their buybacks (keepers/v3/ingress/keeper.mjs: advanceLot, convert,
-- runBuybacks; keepers/v3/lib/quotes.mjs: conversionMinFloor). The chain with the transaction sender, the auditors,
-- the prices and the signer are outside this part, as a record of readings and a call. A lot's token is known by
-- the lot, and the digests by what they are taken of. What throws ends the tick.
pub mod Allowed
mod Tests
use solonpad_contracts.Base.{
  Bool, List, Option, Result, [], err, if◌then◌else◌, includes, leb, ltb, not, ok, or_else, some,
  true, ℕ, ◌&&◌, ◌*◌, ◌++◌, ◌+◌, ◌-◌, ◌/◌, ◌==◌, ◌^◌, ◌||◌, ◌∷◌,
}
use solonpad_contracts.Base.Dict.{Dict, insert, lookup}
use solonpad_contracts.Ingress.Routing.{
  IngressLot, LotAction, RouterLot, await_audit, convert, finished, fund, lot_next_action,
  quarantine, record_lot, route, waits,
}
use solonpad_contracts.Ingress.Buyback.{Chunk, PriceError, buy, buyback_chunk, buyback_min_out}

-- The journal record of a lot, with the parts of its evidence that its turn reads.
pub record LotRec : Type 0 where
  pub lot_id : ℕ
  pub native : Bool
  pub amount : ℕ
  pub is_done : Bool
  pub is_quarantined : Bool
  pub funded_at : Option ℕ
  pub buyback_lots : List ℕ

pub data Op : Type 0 where
  call_record call_route : (lot : ℕ) → Op
  call_approve call_fund : (lot amount : ℕ) → Op
  call_convert : (lot slice min_out : ℕ) → Op
  call_execute : (id amount min_out : ℕ) → Op

-- `executor.lots`
pub record BuybackLot : Type 0 where
  pub budget : ℕ
  pub spent : ℕ
  pub executed : Bool
  pub protocol_desk : Bool

pub record Params : Type 0 where
  pub min_buy18 : ℕ
  pub slippage_bps : ℕ

pub record Chain (W : Type 0) : Type 0 where
  pub has_auditors : Bool
  pub has_prices : Bool
  pub ingress_state : W → (lot : ℕ) → IngressLot
  pub is_admitted : W → (lot : ℕ) → Bool
  pub router_state : W → (lot : ℕ) → RouterLot
  pub auditors_agree : W → (lot : ℕ) → Bool
  pub allowance : W → (lot : ℕ) → ℕ
  pub has_converter : W → (lot : ℕ) → Bool
  pub pending_kind : W → (lot : ℕ) → ℕ
  pub next_slice : W → (lot : ℕ) → ℕ
  pub value18 : W → (lot : ℕ) → ℕ
  pub lp_fee_ppm : W → (lot : ℕ) → ℕ
  pub buyback_lot : W → (id : ℕ) → BuybackLot
  pub solon_price : W → ℕ
  pub can_sign : W → Op → Bool
  pub bought : W → Op → List (ℕ × ℕ)
  pub call : W → Op → W × Bool

pub record State (W : Type 0) : Type 0 where
  pub world : W
  pub lots : Dict LotRec
  pub burns : Dict ℕ
  pub sends : List (W × Op)
  pub thrown : Bool

-- `conversionMinFloor`, for a fee of at most a million.
abbrev pub conversion_min_floor : (value18 lp_fee_ppm : ℕ) → ℕ
conversion_min_floor value fee =
    (value * (1_000_000 - fee) * 9_900 + 10_000_000_000 - 1) / 10_000_000_000

-- The values of the `Set` of all buyback lots, in the order of their first places.
pub distinct : (seen : List ℕ) → List ℕ → List ℕ
distinct seen [] = []
distinct seen (x ∷ xs) =
    let again = distinct seen xs in
    let first = distinct (x ∷ seen) xs in if includes seen x then again else x ∷ first

abbrev pub buyback_ids : Dict LotRec → List ℕ
buyback_ids [] = []
buyback_ids ((rid, r) ∷ lots) = r.buyback_lots ++ buyback_ids lots

-- The amounts of the `Bought` events as burns to do.
abbrev pub note_burns : List (ℕ × ℕ) → Dict ℕ → Dict ℕ
note_burns [] burns = burns
note_burns ((id, amount) ∷ logs) burns = note_burns logs (insert id amount burns)

module _ {W : Type 0} (chain : Chain W) (p : Params) (now : ℕ) where
  pub send : Op → State W → State W × Bool
  send op s =
      let (w, confirmed) = chain.call s.world op in
      (record s { world = w; sends = (s.world, op) ∷ s.sends }, confirmed)

  abbrev pub throw : State W → State W
  throw s = record s { thrown = true }

  -- `setRecord('lots', rid, patch)` of a lot that the journal has.
  abbrev pub patch_lot : (rid : ℕ) → LotRec → (LotRec → LotRec) → State W → State W
  patch_lot rid r patch s = record s {
    lots = insert rid (patch (or_else (lookup rid s.lots) r)) s.lots;
  }

  -- `fundLot`
  pub fund_call : (rid : ℕ) → LotRec → State W → State W
  fund_call rid r s =
      let (after, confirmed) = send (call_fund r.lot_id (if r.native then r.amount else 0)) s in
      let ids = if r.native then r.lot_id ∷ [] else [] in
      if confirmed
      then patch_lot rid r (λ o. record o { funded_at = some now; buyback_lots = ids }) after
      else after

  -- The case 'fund', with the approval of a token.
  pub fund_turn : (rid : ℕ) → LotRec → State W → State W
  fund_turn rid r s =
      let (approved, confirmed) = send (call_approve r.lot_id r.amount) s in
      let direct = fund_call rid r s in
      let behind = fund_call rid r approved in
      if r.native || leb r.amount (chain.allowance s.world r.lot_id)
      then direct
      else if confirmed
      then behind
      else approved

  -- `convert`
  abbrev pub convert_op : W → (lot : ℕ) → Op
  convert_op w lot =
      call_convert lot (chain.next_slice w lot)
        (conversion_min_floor (chain.value18 w lot) (chain.lp_fee_ppm w lot))

  pub convert_turn : (rid : ℕ) → LotRec → State W → State W
  convert_turn rid r s =
      let w = s.world in
      let value = chain.value18 w r.lot_id in
      let (after, confirmed) = send (convert_op w r.lot_id) s in
      let slice = chain.next_slice w r.lot_id in
      let noted =
        patch_lot rid r (λ o. record o { buyback_lots = o.buyback_lots ++ (slice ∷ []) }) after in
      let sent = if confirmed && chain.pending_kind w r.lot_id == 2 then noted else after in
      if not (chain.has_converter w r.lot_id) || not chain.has_prices
      then s
      else if value == 0 || ltb (1000 * 10 ^ 18) value
      then s
      else if not (chain.can_sign w (convert_op w r.lot_id))
      then throw s
      else sent

  -- The `switch` of `advanceLot`.
  pub by_action : (rid : ℕ) → LotRec → LotAction → State W → State W
  by_action rid r await_audit s = s
  by_action rid r record_lot s =
      let after = (send (call_record r.lot_id) s).0 in
      if chain.auditors_agree s.world r.lot_id then after else throw s
  by_action rid r quarantine s = patch_lot rid r (λ o. record o { is_quarantined = true }) s
  by_action rid r fund s = fund_turn rid r s
  by_action rid r route s = (send (call_route r.lot_id) s).0
  by_action rid r convert s = convert_turn rid r s
  by_action rid r finished s = patch_lot rid r (λ o. record o { is_done = true }) s
  by_action rid r waits s = s

  abbrev pub action_of : W → LotRec → LotAction
  action_of w r =
      lot_next_action (chain.ingress_state w r.lot_id) (chain.is_admitted w r.lot_id)
        (chain.router_state w r.lot_id) r.native chain.has_auditors

  -- `advanceLot`
  pub advance_lot : (rid : ℕ) → LotRec → State W → State W
  advance_lot rid r s =
      let turn = by_action rid r (action_of s.world r) s in
      if r.is_done || r.is_quarantined then s else turn

  -- The loop of `tick` over the lots that the journal lists at its start.
  pub advance_lots : Dict LotRec → State W → State W
  advance_lots [] s = s
  advance_lots ((rid, r) ∷ lots) s =
      let next = advance_lots lots (advance_lot rid r s) in if s.thrown then s else next

  abbrev pub on_min_out : (id amount : ℕ) → BuybackLot → Result PriceError ℕ → State W → State W
  on_min_out id amount lot (err e) s = throw s
  on_min_out id amount lot (ok min_out) s =
      let op = call_execute id amount min_out in
      let (after, confirmed) = send op s in
      let stored = record after { burns = note_burns (chain.bought after.world op) after.burns } in
      if not (chain.can_sign s.world op)
      then throw s
      else if confirmed && not lot.protocol_desk
      then stored
      else after

  abbrev pub on_chunk : (id : ℕ) → BuybackLot → Chunk → State W → State W
  on_chunk id lot (buy amount) s =
      let priced =
        on_min_out id amount lot (buyback_min_out amount (chain.solon_price s.world) p.slippage_bps)
          s in
      if chain.has_prices then priced else s
  on_chunk id lot _ s = s

  pub buy_one : (id : ℕ) → State W → State W
  buy_one id s =
      let lot = chain.buyback_lot s.world id in
      on_chunk id lot (buyback_chunk lot.budget lot.spent lot.executed p.min_buy18) s

  pub buy_each : List ℕ → State W → State W
  buy_each [] s = s
  buy_each (id ∷ ids) s = let next = buy_each ids (buy_one id s) in if s.thrown then s else next

  -- `runBuybacks`
  pub run_buybacks : State W → State W
  run_buybacks s = buy_each (distinct [] (buyback_ids s.lots)) s
