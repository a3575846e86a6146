-- ===== src/Ingress/Lots/Allowed.antt =====
-- What the ingress keeper sends for its lots.
use solonpad_contracts.Ingress.Buyback.Spending.{buyback_chunk-buy}
use solonpad_contracts.Base.{
  All, List, Result, [], arith, err, false, if_lem, if◌then◌else◌, inl, inr, leb, ltb, not, ok,
  refl, true, ℕ, ◌&&◌, ◌*◌, ◌+◌, ◌<◌, ◌==◌, ◌^◌, ◌||◌, ◌∷◌, ◌≡◌, ◌≤◌, ◌⊎◌,
}
use solonpad_contracts.Base.Dict.{Dict}
use solonpad_contracts.Ingress.Routing.{
  LotAction, await_audit, convert, finished, fund, funded, no_lot, observed, quarantine, raw_funded,
  record_lot, route, routed, waits,
}
use solonpad_contracts.Ingress.Routing.Actions.{
  action-convert, action-fund, action-record_lot, action-route,
}
use solonpad_contracts.Ingress.Buyback.{
  Chunk, PriceError, below_minimum, buy, buyback_chunk, buyback_min_out, max_buyback, unfunded,
  was_executed,
}
use solonpad_contracts.Ingress.Lots.{
  BuybackLot, Chain, LotRec, Op, Params, State, action_of, advance_lot, advance_lots, buy_each,
  buy_one, buyback_ids, by_action, call_approve, call_convert, call_execute, call_fund, call_record,
  call_route, conversion_min_floor, convert_op, convert_turn, distinct, fund_call, fund_turn,
  on_chunk, on_min_out, run_buybacks, send,
}

module _ {W : Type 0} (chain : Chain W) (p : Params) (now : ℕ) where
  -- A call that its world asks for. A token's funding follows its approval, which the keeper has just read or seen
  -- confirmed, so only the funding in USDC is told apart here.
  abbrev pub IsAllowed : W × Op → Type 0
  IsAllowed (w, call_record lot) = chain.ingress_state w lot ≡ no_lot
  IsAllowed (w, call_approve lot amount) =
      (chain.ingress_state w lot ≡ observed)
      × (chain.is_admitted w lot ≡ true)
      × (chain.allowance w lot < amount)
  IsAllowed (w, call_fund lot amount) =
      (amount ≡ 0) ⊎ ((chain.ingress_state w lot ≡ observed) × (chain.is_admitted w lot ≡ true))
  IsAllowed (w, call_route lot) =
      (chain.ingress_state w lot ≡ funded) × (chain.router_state w lot ≡ raw_funded)
  IsAllowed (w, call_convert lot slice min_out) =
      (chain.router_state w lot ≡ routed)
      × (chain.has_converter w lot ≡ true)
      × (0 < chain.value18 w lot)
      × (chain.value18 w lot ≤ 1000 * 10 ^ 18)
      × (min_out ≡ conversion_min_floor (chain.value18 w lot) (chain.lp_fee_ppm w lot))
  IsAllowed (w, call_execute id amount min_out) =
      let lot = chain.buyback_lot w id in
      (lot.executed ≡ false)
      × (lot.spent + amount ≤ lot.budget)
      × (amount ≤ max_buyback)
      × (buyback_min_out amount (chain.solon_price w) p.slippage_bps ≡ ok min_out)

  abbrev Allows : State W → Type 0
  Allows s = All IsAllowed s.sends

  fund_call-Allows :
      (rid : ℕ) (r : LotRec) (s : State W)
      → IsAllowed (s.world, call_fund r.lot_id (if r.native then r.amount else 0))
      → Allows s
      → Allows (fund_call chain p now rid r s)
  unfolding fund_call send
  fund_call-Allows rid r s good a =
      let op = call_fund r.lot_id (if r.native then r.amount else 0) in
      if_lem Allows (chain.call s.world op).1 (λ went. (good, a)) (λ missed. (good, a))

  fund_turn-Allows :
      (rid : ℕ) (r : LotRec) (s : State W)
      → chain.ingress_state s.world r.lot_id ≡ observed
      → chain.is_admitted s.world r.lot_id ≡ true
      → Allows s
      → Allows (fund_turn chain p now rid r s)
  unfolding fund_turn send
  fund_turn-Allows rid r s seen given a =
      let op = call_approve r.lot_id r.amount in
      let approved = (send chain p now op s).0 in
      if_lem Allows (r.native || leb r.amount (chain.allowance s.world r.lot_id))
        (λ direct. fund_call-Allows rid r s (inr (seen, given)) a)
        (λ short.
          let low : chain.allowance s.world r.lot_id < r.amount = ground arith in
          let token : r.native ≡ false = ground arith in
          let free : (if r.native then r.amount else 0) ≡ 0 = rw token refl in
          let next : Allows approved = ((seen, given, low), a) in
          if_lem Allows (chain.call s.world op).1
            (λ went. fund_call-Allows rid r approved (inl free) next) (λ missed. next))

  convert_turn-Allows :
      (rid : ℕ) (r : LotRec) (s : State W)
      → chain.router_state s.world r.lot_id ≡ routed
      → Allows s
      → Allows (convert_turn chain p now rid r s)
  unfolding convert_turn send
  convert_turn-Allows rid r s at a =
      let w = s.world in
      let value = chain.value18 w r.lot_id in
      let op = convert_op chain p now w r.lot_id in
      if_lem Allows (not (chain.has_converter w r.lot_id) || not chain.has_prices) (λ seam. a)
        (λ able.
          if_lem Allows (value == 0 || ltb (1000 * 10 ^ 18) value) (λ split. a)
            (λ fits.
              if_lem Allows (not (chain.can_sign w op)) (λ cannot. a)
                (λ signs.
                  let ready_now : chain.has_converter w r.lot_id ≡ true = ground arith in
                  let pos : 0 < value = ground arith in
                  let few : value ≤ 1000 * 10 ^ 18 = ground arith in
                  let good : IsAllowed (w, op) = (at, ready_now, pos, few, refl) in
                  if_lem Allows ((chain.call w op).1 && chain.pending_kind w r.lot_id == 2)
                    (λ noted. (good, a)) (λ plain. (good, a)))))

  by_action-Allows :
      (rid : ℕ) (r : LotRec) (action : LotAction) (s : State W)
      → action_of chain p now s.world r ≡ action
      → Allows s
      → Allows (by_action chain p now rid r action s)
  unfolding by_action send
  by_action-Allows rid r await_audit s h a = a
  by_action-Allows rid r record_lot s h a =
      let w = s.world in
      let good =
        action-record_lot (chain.router_state w r.lot_id) (chain.is_admitted w r.lot_id) r.native
          chain.has_auditors (chain.ingress_state w r.lot_id) h in
      if_lem Allows (chain.auditors_agree w r.lot_id) (λ agree. (good, a)) (λ differ. a)
  by_action-Allows rid r quarantine s h a = a
  by_action-Allows rid r fund s h a =
      let w = s.world in
      let good =
        action-fund (chain.router_state w r.lot_id) (chain.is_admitted w r.lot_id) r.native
          chain.has_auditors (chain.ingress_state w r.lot_id) h in
      fund_turn-Allows rid r s good.0 good.1 a
  by_action-Allows rid r route s h a =
      let w = s.world in
      let good =
        action-route (chain.router_state w r.lot_id) (chain.is_admitted w r.lot_id) r.native
          chain.has_auditors (chain.ingress_state w r.lot_id) h in
      (good, a)
  by_action-Allows rid r convert s h a =
      let w = s.world in
      let good =
        action-convert (chain.router_state w r.lot_id) (chain.is_admitted w r.lot_id) r.native
          chain.has_auditors (chain.ingress_state w r.lot_id) h in
      convert_turn-Allows rid r s good.1 a
  by_action-Allows rid r finished s h a = a
  by_action-Allows rid r waits s h a = a

  advance_lots-Allows :
      (lots : Dict LotRec) (s : State W) → Allows s → Allows (advance_lots chain p now lots s)
  unfolding advance_lots advance_lot
  advance_lots-Allows [] s a = a
  advance_lots-Allows ((rid, r) ∷ lots) s a =
      if_lem Allows s.thrown (λ ended. a)
        (λ going. advance_lots-Allows lots (advance_lot chain p now rid r s) (
          if_lem Allows (r.is_done || r.is_quarantined) (λ over. a)
            (λ live. by_action-Allows rid r (action_of chain p now s.world r) s refl a)))

  on_min_out-Allows :
      (id amount : ℕ) (o : Result PriceError ℕ) (s : State W)
      → ((min_out : ℕ) → o ≡ ok min_out → IsAllowed (s.world, call_execute id amount min_out))
      → Allows s
      → Allows (on_min_out chain p now id amount (chain.buyback_lot s.world id) o s)
  unfolding send
  on_min_out-Allows id amount (err e) s good a = a
  on_min_out-Allows id amount (ok min_out) s good a =
      let op = call_execute id amount min_out in
      let one = good min_out refl in
      let lot = chain.buyback_lot s.world id in
      if_lem Allows (not (chain.can_sign s.world op)) (λ cannot. a)
        (λ signs.
          if_lem Allows ((chain.call s.world op).1 && not lot.protocol_desk) (λ stored. (one, a))
            (λ plain. (one, a)))

  chunk_within :
      (lot : BuybackLot) (amount : ℕ)
      → buyback_chunk lot.budget lot.spent lot.executed p.min_buy18 ≡ buy amount
      → (lot.executed ≡ false) × (lot.spent + amount ≤ lot.budget) × (amount ≤ max_buyback)
  chunk_within lot amount h =
      buyback_chunk-buy lot.budget lot.spent lot.executed p.min_buy18 amount h

  on_chunk-Allows :
      (id : ℕ) (c : Chunk) (s : State W)
      → (let lot = chain.buyback_lot s.world id in
          buyback_chunk lot.budget lot.spent lot.executed p.min_buy18 ≡ c)
      → Allows s
      → Allows (on_chunk chain p now id (chain.buyback_lot s.world id) c s)
  on_chunk-Allows id was_executed s h a = a
  on_chunk-Allows id unfunded s h a = a
  on_chunk-Allows id below_minimum s h a = a
  on_chunk-Allows id (buy amount) s h a =
      let within = chunk_within (chain.buyback_lot s.world id) amount h in
      if_lem Allows chain.has_prices
        (λ priced.
          on_min_out-Allows id amount
            (buyback_min_out amount (chain.solon_price s.world) p.slippage_bps) s
            (λ min_out e. (within.0, within.1, within.2, e)) a)
        (λ seam. a)

  buy_each-Allows : (ids : List ℕ) (s : State W) → Allows s → Allows (buy_each chain p now ids s)
  unfolding buy_each buy_one
  buy_each-Allows [] s a = a
  buy_each-Allows (id ∷ ids) s a =
      let lot = chain.buyback_lot s.world id in
      if_lem Allows s.thrown (λ ended. a)
        (λ going. buy_each-Allows ids (buy_one chain p now id s) (
          on_chunk-Allows id (buyback_chunk lot.budget lot.spent lot.executed p.min_buy18) s refl
            a))

  -- Whatever the chain answers, each call for a lot is one that its world asks for: a lot is recorded only unknown,
  -- approved only admitted and short of allowance, funded in USDC only admitted, routed only funded, and
  -- converted only routed, worth at most 1,000 USDC and at the floor for its value; and a buyback spends, of
  -- a lot not executed, at most 1,000 USDC and what its budget has left, at the minimum output for its amount.
  pub lots-IsAllowed :
      (s : State W)
      → All IsAllowed s.sends
      → let advanced = advance_lots chain p now s.lots s in
        All IsAllowed (run_buybacks chain p now advanced).sends
  unfolding run_buybacks
  lots-IsAllowed s a =
      let advanced = advance_lots chain p now s.lots s in
      buy_each-Allows (distinct [] (buyback_ids advanced.lots)) advanced
        (advance_lots-Allows s.lots s a)
