-- ===== src/Payout/Prepare/Registered.antt =====
-- When the participants of a source are all registered, and that a queue is opened once.
use solonpad_contracts.Base.{
  Bool, arith, if_lem, leb, leb→le, le→leb, min, refl, suc, true, zero, ℕ, ◌*◌, ◌+◌, ◌≡◌, ◌≤◌,
}
use solonpad_contracts.Payout.Prepare.{
  Chain, Key, Op, State, ensure_queue, open_queue, register, register_pages, register_source, send,
}

-- A node that confirms, and a vault that registers `page` participants a call, up to the bound.
pub record Registers {W : Type 0} (chain : Chain W) (page : ℕ) : Type 0 where
  pub confirms : (w : W) (op : Op) → (chain.call w op).1 ≡ true
  pub advances :
      (w : W) (source cursor : ℕ)
      → min (chain.required_bound w source) (chain.source_cursor w source + page)
        ≤ chain.source_cursor (chain.call w (register source cursor)).0 source
  pub bound_kept :
      (w : W) (source cursor : ℕ)
      → chain.required_bound (chain.call w (register source cursor)).0 source
        ≡ chain.required_bound w source

module _ {W : Type 0} (chain : Chain W) where
  -- What `registerSource` says is so.
  IsTrue : (source : ℕ) → Bool × State W → Type 0
  IsTrue source out =
      out.0 ≡ true
      → chain.required_bound out.1.world source ≤ chain.source_cursor out.1.world source

  register_pages-IsTrue :
      (n source : ℕ) (s : State W) → IsTrue source (register_pages chain n source s)
  unfolding register_pages IsTrue
  register_pages-IsTrue zero source s = λ h. ground arith
  register_pages-IsTrue (suc n) source s =
      let cursor = chain.source_cursor s.world source in
      let after = (send chain (register source cursor) s).0 in
      if_lem (IsTrue source) (leb (chain.required_bound s.world source) cursor)
        (λ full. λ h. leb→le _ _ full)
        (λ short.
          if_lem (IsTrue source) (send chain (register source cursor) s).1
            (λ went. register_pages-IsTrue n source after) (λ missed. λ h. ground arith))

  -- `registerSource` says true only once every participant that the source requires is registered.
  pub register_source_registered :
      (source : ℕ) (s : State W)
      → (register_source chain source s).0 ≡ true
      → let w = (register_source chain source s).1.world in
        chain.required_bound w source ≤ chain.source_cursor w source
  unfolding register_source IsTrue
  register_source_registered source s = register_pages-IsTrue 64 source s

  abbrev Finishes : Bool × State W → Type 0
  Finishes out = out.0 ≡ true

  module _ (page : ℕ) (registers : Registers chain page) where
    register_pages_completes :
        (n source : ℕ) (s : State W)
        → chain.required_bound s.world source ≤ chain.source_cursor s.world source + n * page
        → (register_pages chain (suc n) source s).0 ≡ true
    unfolding register_pages send
    register_pages_completes zero source s reach =
        let full : leb (chain.required_bound s.world source) (chain.source_cursor s.world source)
            ≡ true =
          le→leb _ _ (omega arith) in
        rw (full, register_pages) refl
    register_pages_completes (suc n) source s reach =
        let cursor = chain.source_cursor s.world source in
        let after = (send chain (register source cursor) s).0 in
        let there = registers.advances s.world source cursor in
        let kept = registers.bound_kept s.world source cursor in
        let closer : chain.required_bound after.world source
            ≤ chain.source_cursor after.world source + n * page =
          omega (arith, there, kept, reach) in
        let went = registers.confirms s.world (register source cursor) in
        if_lem Finishes (leb (chain.required_bound s.world source) cursor) (λ full. refl)
          (λ short. rw went (register_pages_completes n source after closer))

    -- With a node that confirms, 63 pages are within reach of one call: `registerSource` then says true, and in the
    -- world that it leaves everybody that the source requires is registered.
    pub register_source_completes :
        (source : ℕ) (s : State W)
        → chain.required_bound s.world source ≤ chain.source_cursor s.world source + 63 * page
        → let (said, after) = register_source chain source s in
          (said ≡ true)
          × (chain.required_bound after.world source ≤ chain.source_cursor after.world source)
    unfolding register_source
    register_source_completes source s reach =
        let said = register_pages_completes 63 source s reach in
        (said, register_source_registered source s said)

  -- A queue that is opened is opened once: where the call left its queue on chain, asking for the queue again sends
  -- nothing more.
  pub ensure_queue_once :
      (k : Key) (s : State W)
      → chain.is_queued (chain.call s.world (open_queue k)).0 k ≡ true
      → ensure_queue chain k (ensure_queue chain k s) ≡ ensure_queue chain k s
  unfolding ensure_queue send
  ensure_queue_once k s opened = ground arith
