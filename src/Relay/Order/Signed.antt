-- ===== src/Relay/Order/Signed.antt =====
-- Only an order for the expected money is signed.
use solonpad_contracts.Base.{
  Bool, List, Option, Result, [], arith, err, false, guard, includes, none, not, ok, or_else, refl,
  some, subst, sym, true, ◌>>=◌, ◌∷◌, ◌≡◌,
}
use solonpad_contracts.Relay.Deposit.{is_short}
use solonpad_contracts.Relay.Order.{
  Calldata, Expect, Item, Order, Refusal, RelayQuote, Step, check_details, check_item, given, lifi,
  no_calldata, not_deposit, not_one_item, not_one_step, not_transaction, one_of,
  validate_relay_quote,
}

guarded :
    {A : Type 0} (test : Bool) (e : Refusal) (k : Result Refusal A) (a : A)
    → ((guard test e) >>= λ _. k) ≡ ok a
    → (test ≡ true) × (k ≡ ok a)
guarded true e k a h = (refl, h)
guarded false e k a h = absurd (ground arith)

checked :
    {A : Type 0} (m : Result Refusal (Unit {0})) (k : Result Refusal A) (a : A)
    → (m >>= λ _. k) ≡ ok a
    → (m ≡ ok tt) × (k ≡ ok a)
checked (ok tt) k a h = (refl, h)
checked (err e) k a h = absurd (ground arith)

single :
    {A B : Type 0} (e : Refusal) (xs : List A) (f : A → Result Refusal B) (b : B)
    → (one_of e xs >>= f) ≡ ok b
    → (x : A) × (xs ≡ x ∷ []) × (f x ≡ ok b)
single e [] f b h = absurd (ground arith)
single e (x ∷ []) f b h = (x, refl, h)
single e (x ∷ (y ∷ ys)) f b h = absurd (ground arith)

present :
    {A B : Type 0} (e : Refusal) (o : Option A) (f : A → Result Refusal B) (b : B)
    → (given e o >>= f) ≡ ok b
    → (x : A) × (o ≡ some x) × (f x ≡ ok b)
present e none f b h = absurd (ground arith)
present e (some x) f b h = (x, refl, h)

order_inj :
    (a b : Order)
    → ◌≡◌ {A = Result Refusal Order} (ok a) (ok b)
    → (a.target ≡ b.target)
      × (a.value ≡ b.value)
      × (a.selector ≡ b.selector)
      × (a.minimum_out6 ≡ b.minimum_out6)
order_inj a b h = ground arith

item_checks :
    (i : Item) (c : Calldata) (e : Expect)
    → check_item i c e ≡ ok tt
    → (i.chain ≡ e.origin_chain)
      × (includes e.targets i.target ≡ true)
      × (i.value ≡ some e.amount_wei)
      × (includes e.selectors c.selector ≡ true)
      × (c.has_user ≡ true)
unfolding check_item
item_checks i c e h = ground arith

details_checks :
    (q : RelayQuote) (e : Expect)
    → check_details q e ≡ ok tt
    → (q.out_chain ≡ e.destination_chain)
      × (q.out_currency ≡ e.destination_currency)
      × (is_short e.min_out6 (or_else q.out_minimum (or_else q.out_amount 0)) ≡ false)
unfolding check_details
details_checks q e h = ground arith

-- Whatever the service answers, what is signed sends exactly the expected amount on the expected chain to an
-- allowed target with an allowed selector and the user in its calldata; the quote pays out in the expected
-- currency on the expected chain, and its minimum reaches what was asked for.
pub validate_relay_quote-ok :
    (q : RelayQuote) (e : Expect) (o : Order)
    → validate_relay_quote q e ≡ ok o
    → (includes e.targets o.target ≡ true)
      × (includes e.selectors o.selector ≡ true)
      × (o.value ≡ e.amount_wei)
      × (q.out_chain ≡ e.destination_chain)
      × (q.out_currency ≡ e.destination_currency)
      × (is_short e.min_out6 o.minimum_out6 ≡ false)
      × ((s : Step) × (i : Item) × (c : Calldata) × (q.steps ≡ s ∷ [])
          × (s.items ≡ i ∷ [])
          × (i.calldata ≡ some c)
          × (c.has_user ≡ true)
          × (i.chain ≡ e.origin_chain)
          × (i.value ≡ some e.amount_wei))
unfolding validate_relay_quote
validate_relay_quote-ok q e o h =
    let (plain, h1) = guarded (not q.mentions_lifi) lifi _ o h in
    let (s, steps, h2) = single not_one_step q.steps _ o h1 in
    let (transaction, h3) = guarded s.is_transaction not_transaction _ o h2 in
    let (deposit, h4) = guarded s.is_deposit not_deposit _ o h3 in
    let (i, items, h5) = single not_one_item s.items _ o h4 in
    let (c, data_of, h6) = present no_calldata i.calldata _ o h5 in
    let (item_ok, h7) = checked (check_item i c e) _ o h6 in
    let (details_ok, h8) = checked (check_details q e) _ o h7 in
    let (on_chain, target, value, selector, bound) = item_checks i c e item_ok in
    let (out_chain, out_currency, enough) = details_checks q e details_ok in
    let (same_target, same_value, same_selector, same_minimum) = order_inj _ o h8 in
    (
      subst (λ x. includes e.targets x ≡ true) same_target target,
      subst (λ x. includes e.selectors x ≡ true) same_selector selector,
      sym same_value,
      out_chain,
      out_currency,
      subst (λ x. is_short e.min_out6 x ≡ false) same_minimum enough,
      (s, i, c, steps, items, data_of, bound, on_chain, value),
    )
