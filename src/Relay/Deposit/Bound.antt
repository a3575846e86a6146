-- ===== src/Relay/Deposit/Bound.antt =====
-- An accepted quote pays exactly what was expected.
use solonpad_contracts.Base.{
  ==_iff, Bool, Bool-cases, List, Option, Result, [], ap, arith, err, false, get_elem?, guard, inl,
  inr, length, none, not, ok, or_else, refl, some, subst, suc, true, ℕ, ◌/◌, ◌==◌, ◌>>=◌, ◌∙◌, ◌∷◌,
  ◌≡◌,
}
use solonpad_contracts.Relay.Deposit.{
  Deposit, Expectation, Input, Payment, Quote, Refund, Rejected, agrees, check_input, check_output,
  has_calls, is_short, lifi_route, no_order_id, not_one_input, not_one_payment, only, origin_refund,
  refunds_to, required, validate_deposit_quote, wrong_output_chain,
}

guard-ok :
    {A : Type 0} (test : Bool) (e : Rejected) (k : Result Rejected A) (a : A)
    → ((guard test e) >>= λ _. k) ≡ ok a
    → (test ≡ true) × (k ≡ ok a)
guard-ok true e k a h = (refl, h)
guard-ok false e k a h = absurd (ground arith)

unit-ok :
    {A : Type 0} (m : Result Rejected (Unit {0})) (k : Result Rejected A) (a : A)
    → (m >>= λ _. k) ≡ ok a
    → (m ≡ ok tt) × (k ≡ ok a)
unit-ok (ok tt) k a h = (refl, h)
unit-ok (err e) k a h = absurd (ground arith)

only-ok :
    {A B : Type 0} (e : Rejected) (xs : List A) (f : A → Result Rejected B) (b : B)
    → (only e xs >>= f) ≡ ok b
    → (x : A) × (xs ≡ x ∷ []) × (f x ≡ ok b)
only-ok e [] f b h = absurd (ground arith)
only-ok e (x ∷ []) f b h = (x, refl, h)
only-ok e (x ∷ (y ∷ ys)) f b h = absurd (ground arith)

required-ok :
    {A B : Type 0} (e : Rejected) (o : Option A) (f : A → Result Rejected B) (b : B)
    → (required e o >>= f) ≡ ok b
    → (x : A) × (o ≡ some x) × (f x ≡ ok b)
required-ok e none f b h = absurd (ground arith)
required-ok e (some x) f b h = (x, refl, h)

ok-inj :
    (a b : Deposit)
    → ◌≡◌ {A = Result Rejected Deposit} (ok a) (ok b)
    → (a.order_id ≡ b.order_id) × (a.expected_out ≡ b.expected_out)
ok-inj a b h = ground arith

check_input-ok :
    (i : Input) (e : Expectation)
    → check_input i e ≡ ok tt
    → (i.chain ≡ e.origin_chain)
      × (agrees e.payment_currency i.currency ≡ true)
      × (i.amount ≡ some (e.amount / e.native_scale))
      × (refunds_to e.user (origin_refund e.origin_chain i.refunds) ≡ true)
unfolding check_input
check_input-ok i e h = ground arith

check_output-ok :
    (q : Quote) (p : Payment) (e : Expectation)
    → check_output q p e ≡ ok tt
    → (p.recipient ≡ e.recipient)
      × (p.currency ≡ e.destination_currency)
      × (agrees q.details_recipient e.recipient ≡ true)
      × (agrees q.details_sender e.user ≡ true)
      × (is_short e.min_out (or_else p.expected_amount (or_else q.details_amount 0)) ≡ false)
unfolding check_output
check_output-ok q p e h = ground arith

-- The refund that is checked is one of the order's, on the origin chain, to the user.
refunds_to-listed :
    (chain user : ℕ) (rs : List Refund)
    → refunds_to user (origin_refund chain rs) ≡ true
    → (i : ℕ) × (get_elem? rs i ≡ some (record { chain = chain; recipient = user }))
unfolding origin_refund
refunds_to-listed chain user [] h = absurd (ground arith)
refunds_to-listed chain user (r ∷ rs) h = elim (Bool-cases (r.chain == chain)) [
  | inl here ↦
      let to : r.recipient ≡ user = ground arith in
      let on : r.chain ≡ chain = ground arith in (0, ground arith)
  | inr other ↦ let (i, found) = refunds_to-listed chain user rs (rw other at h) in (suc i, found)
]

-- A quote that is accepted has one input, paying exactly the expected amount in origin units on the origin
-- chain and refunding there to the user, no calls on the other side, and one payment: to the expected
-- recipient, in the expected currency, on the expected chain; what it is expected to pay reaches the minimum.
pub validate_deposit_quote-ok :
    (q : Quote) (e : Expectation) (d : Deposit)
    → validate_deposit_quote q e ≡ ok d
    → (i : Input) × (p : Payment) × (q.inputs ≡ i ∷ [])
      × (q.payments ≡ p ∷ [])
      × (q.order_id ≡ some d.order_id)
      × (i.chain ≡ e.origin_chain)
      × (i.amount ≡ some (e.amount / e.native_scale))
      × (q.output_chain ≡ e.destination_chain)
      × (length q.calls ≡ 0)
      × (p.recipient ≡ e.recipient)
      × (p.currency ≡ e.destination_currency)
      × (is_short e.min_out d.expected_out ≡ false)
      × ((k : ℕ) × (get_elem? i.refunds k
            ≡ some (record { chain = e.origin_chain; recipient = e.user })))
unfolding validate_deposit_quote
validate_deposit_quote-ok q e d h =
    let (plain, h1) = guard-ok (not q.mentions_lifi) lifi_route _ d h in
    let (id, id_eq, h2) = required-ok no_order_id q.order_id _ d h1 in
    let (i, inputs, h3) = only-ok not_one_input q.inputs _ d h2 in
    let (input_ok, h4) = unit-ok (check_input i e) _ d h3 in
    let (chain, h5) = guard-ok (q.output_chain == e.destination_chain) wrong_output_chain _ d h4 in
    let (calls, h6) = guard-ok (length q.calls == 0) has_calls _ d h5 in
    let (p, payments, h7) = only-ok not_one_payment q.payments _ d h6 in
    let (output_ok, h8) = unit-ok (check_output q p e) _ d h7 in
    let (on_origin, currency, amount, refund) = check_input-ok i e input_ok in
    let (to, in_currency, recipient, sender, enough) = check_output-ok q p e output_ok in
    let (same_id, same_out) = ok-inj _ d h8 in
    let found = refunds_to-listed e.origin_chain e.user i.refunds refund in
    (
      i,
      p,
      inputs,
      payments,
      id_eq ∙ ap some same_id,
      on_origin,
      amount,
      (==_iff q.output_chain e.destination_chain).0 chain,
      (==_iff (length q.calls) 0).0 calls,
      to,
      in_currency,
      subst (λ x. is_short e.min_out x ≡ false) same_out enough,
      found,
    )
