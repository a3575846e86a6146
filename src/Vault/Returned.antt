-- ===== src/Vault/Returned.antt =====
-- What the vault worker sends.
use solonpad_contracts.Base.{
  All, Bool, Bool-cases, Option, [], arith, false, if_lem, if◌then◌else◌, inl, inr, leb, leb→le,
  length, ltb, none, not_ltb→le, refl, some, subst, suc, sym, true, zero, ℕ, ◌+◌, ◌-◌, ◌<◌, ◌==◌,
  ◌∷◌, ◌≡◌, ◌≤◌, ◌⊎◌,
}
use solonpad_contracts.Base.Dict.{Dict}
use solonpad_contracts.Vault.{
  Chain, Op, Params, Quoted, State, execute_each, execute_funded, execute_one, execute_waiting,
  is_fundable, on_quote, on_waiting, owed_of, return_each, return_funds, return_liabilities,
  return_one, send, short_bps,
}

module _ {W : Type 0} (chain : Chain W) (p : Params) (now : ℕ) (float_on : Bool) (free : ℕ) where
  -- A call that its world asks for: an order that is unsettled, waits, and is paid by its own funding or by the free
  -- float read at the start; or a liability worth returning, at a quote that is not too short.
  abbrev pub IsAsked : W × Op → Type 0
  IsAsked (w, execute_funded ref) =
      (amount : ℕ) × (chain.is_settled w ref ≡ false)
      × (chain.waiting_amount w ref ≡ some amount)
      × ((amount ≤ chain.funding w ref) ⊎ ((float_on ≡ true) × (amount ≤ free)))
  IsAsked (w, return_funds ref order_id min_out) =
      let owed = chain.funding w ref + chain.proceeds w ref in
      (q : Quoted) × (0 < owed)
      × (p.min_return6 ≤ owed)
      × (chain.quote w owed ≡ some q)
      × (order_id ≡ q.order_id)
      × (min_out ≡ q.expected_out)
      × (short_bps chain p now owed q.expected_out ≤ p.max_return_short_bps)

  abbrev Asks : State W → Type 0
  Asks s = All IsAsked s.sends

  abbrev AsksAfter : Bool × State W → Type 0
  AsksAfter out = Asks out.1

  fundable_lem :
      (amount own : ℕ)
      → is_fundable chain p now float_on free amount own ≡ true
      → (amount ≤ own) ⊎ ((float_on ≡ true) × (amount ≤ free))
  fundable_lem amount own h = elim (Bool-cases (leb amount own)) [
    | inl paid ↦ inl (leb→le _ _ paid)
    | inr short ↦ inr (ground arith)
  ]

  on_waiting-Asks :
      (ref seen : ℕ) (o : Option ℕ) (s : State W)
      → chain.is_settled s.world ref ≡ false
      → chain.waiting_amount s.world ref ≡ o
      → Asks s
      → Asks (on_waiting chain p now float_on free ref seen o s)
  unfolding send
  on_waiting-Asks ref seen none s live e a = a
  on_waiting-Asks ref seen (some amount) s live e a =
      let after = (send chain p now (execute_funded ref) s).0 in
      if_lem Asks (is_fundable chain p now float_on free amount (chain.funding s.world ref))
        (λ good.
          let one : IsAsked (s.world, execute_funded ref) =
            (amount, live, e, fundable_lem amount (chain.funding s.world ref) good) in
          if_lem Asks (send chain p now (execute_funded ref) s).1 (λ went. (one, a))
            (λ missed. (one, a)))
        (λ short. if_lem Asks (ltb p.wait_alert_sec (now - seen)) (λ late. a) (λ early. a))

  execute_each-Asks :
      (refs : Dict ℕ) (s : State W) → Asks s → Asks (execute_each chain p now float_on free refs s)
  unfolding execute_each execute_one
  execute_each-Asks [] s a = a
  execute_each-Asks ((ref, seen) ∷ refs) s a =
      execute_each-Asks refs (execute_one chain p now float_on free ref seen s) (
        if_lem Asks (chain.is_settled s.world ref) (λ over. a)
          (λ live. on_waiting-Asks ref seen (chain.waiting_amount s.world ref) s live refl a))

  -- The calls are asked for, and there are at most `most`.
  abbrev Few : (most : ℕ) → State W → Type 0
  Few most t = Asks t × (length t.sends ≤ most)

  on_quote-Few :
      (ref most : ℕ) (o : Option Quoted) (s : State W)
      → 0 < owed_of chain p now s.world ref
      → p.min_return6 ≤ owed_of chain p now s.world ref
      → chain.quote s.world (owed_of chain p now s.world ref) ≡ o
      → Few most s
      → Few (most + 1) (on_quote chain p now ref (owed_of chain p now s.world ref) o s)
  unfolding send
  on_quote-Few ref most none s some_owed worth e (a, few) = (a, omega arith)
  on_quote-Few ref most (some q) s some_owed worth e (a, few) =
      let owed = owed_of chain p now s.world ref in
      let op = return_funds ref q.order_id q.expected_out in
      if_lem (Few (most + 1))
        (ltb p.max_return_short_bps (short_bps chain p now owed q.expected_out))
        (λ short. (a, omega arith))
        (λ enough.
          let one : IsAsked (s.world, op) =
            (q, some_owed, worth, e, refl, refl, not_ltb→le _ _ enough) in
          if_lem (Few (most + 1)) (chain.call s.world op).1 (λ went. ((one, a), omega arith))
            (λ missed. ((one, a), omega arith)))

  return_one-Few :
      (ref most : ℕ) (s : State W)
      → Few most s
      → Few
          (if (return_one chain p now ref s).0 then most + 1 else most)
          (return_one chain p now ref s).1
  unfolding return_one
  return_one-Few ref most s (a, few) =
      let owed = owed_of chain p now s.world ref in
      if_lem (λ (out : Bool × State W). Few (if out.0 then most + 1 else most) out.1) (owed == 0)
        (λ none_owed. (a, few))
        (λ some_owed.
          let pos : 0 < owed = ground arith in
          if_lem (λ (out : Bool × State W). Few (if out.0 then most + 1 else most) out.1)
            (ltb owed p.min_return6) (λ small. (a, few))
            (λ worth.
              on_quote-Few ref most (chain.quote s.world owed) s pos (not_ltb→le _ _ worth) refl
                (a, few)))

  return_each-Few :
      (left most : ℕ) (refs : Dict ℕ) (s : State W)
      → Few most s
      → Few (most + left) (return_each chain p now left refs s)
  unfolding return_each
  return_each-Few left most [] s (a, few) = (a, omega arith)
  return_each-Few zero most ((ref, outcome) ∷ refs) s (a, few) = (a, omega arith)
  return_each-Few (suc left) most ((ref, outcome) ∷ refs) s h =
      let turn = return_one chain p now ref s in
      let step = return_one-Few ref most s h in
      let going : (b : Bool)
          → turn.0 ≡ b
          → Few (most + suc left)
              (return_each chain p now (if b then left else suc left) refs turn.1)
          → Few (most + suc left)
              (return_each chain p now (if turn.0 then left else suc left) refs turn.1) =
        λ b e few.
          subst
            (λ c.
              Few (most + suc left)
                (return_each chain p now (if c then left else suc left) refs turn.1))
            (sym e) few in
      elim (Bool-cases turn.0) [
        | inl counts ↦
            let next : Few (most + 1) turn.1 =
              subst (λ b. Few (if b then most + 1 else most) turn.1) counts step in
            let shift : most + 1 + left ≡ most + suc left = omega arith in
            going true counts (
              subst (λ m. Few m (return_each chain p now left refs turn.1)) shift
                (return_each-Few left (most + 1) refs turn.1 next))
        | inr free_turn ↦
            let next : Few most turn.1 =
              subst (λ b. Few (if b then most + 1 else most) turn.1) free_turn step in
            going false free_turn (return_each-Few (suc left) most refs turn.1 next)
      ]

-- Whatever the chain and the quote service answer, the worker executes only orders that are unsettled, still wait
-- and are covered, by their own funding or by the free float that it read; and it returns only liabilities of at
-- least the minimum, at a quote that falls short by at most the limit, no more of them a tick than allowed.
pub vault_tick-IsAsked :
    {W : Type 0} (chain : Chain W) (p : Params) (now : ℕ) (s : State W)
    → s.sends ≡ []
    → let asked =
        IsAsked chain p now (chain.float_enabled s.world) (chain.free_settlement s.world) in
      let paid = execute_waiting chain p now s in
      let end = return_liabilities chain p now paid in
      All asked end.sends × (length end.sends ≤ length paid.sends + p.max_per_tick)
unfolding execute_waiting return_liabilities
vault_tick-IsAsked {W} chain p now s fresh_log =
    let float_on = chain.float_enabled s.world in
    let free = chain.free_settlement s.world in
    let paid = execute_waiting chain p now s in
    let none_yet : All (IsAsked chain p now float_on free) s.sends =
      subst (All (IsAsked chain p now float_on free)) (sym fresh_log) tt in
    return_each-Few chain p now float_on free p.max_per_tick (length paid.sends) paid.returnable
      paid (execute_each-Asks chain p now float_on free s.waiting s none_yet, omega arith)
