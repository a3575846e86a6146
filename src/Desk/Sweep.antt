-- ===== src/Desk/Sweep.antt =====
-- One pass over the Desk's streams (keepers/v3/desk/keeper.mjs: streamsPhase, protocolShare, stockStream). The
-- zero address is the number 0.
pub mod Uncovered
use solonpad_contracts.Base.{
  Bool, List, [], if◌then◌else◌, includes, leb, ltb, not, true, ℕ, ◌*◌, ◌++◌, ◌+◌, ◌/◌, ◌==◌, ◌||◌,
  ◌∷◌,
}
use solonpad_contracts.Desk.Streams.{Kind, day, epoch_over, p27, stock_quoted, usdc_quoted}
use solonpad_contracts.Desk.Ledger.{
  Chain, Item, Op, State, StreamRec, forward_protocol, fund_protocol, patch_stream, send,
  stream_rec,
}
use solonpad_contracts.Desk.Walk.{End, Params, Ready, is_ready, threw, usdc_stream, waits}

module _ {W : Type 0} (chain : Chain W) (p : Params) (now : ℕ) where
  -- The call of `protocolShare`, by the stream's kind.
  abbrev pub protocol_op : Item → (credit : ℕ) → Op
  protocol_op item credit = elim item.kind [
    | usdc_quoted ↦ fund_protocol item.id credit
    | stock_quoted ↦ forward_protocol item.id credit
  ]

  -- `protocolShare`: whether the protocol cards' share is settled.
  pub protocol_share : Item → State W → Bool × State W
  protocol_share item s =
      let credit = chain.delegated_credit27 s.world item.id in
      let (after, confirmed) = send chain (protocol_op item credit) s in
      if (stream_rec item.id s).protocol_done
      then (true, s)
      else if leb (credit / p27) (chain.delegated_funded s.world item.id)
      then (true, patch_stream item.id (λ r. record r { protocol_done = true }) s)
      else (confirmed, after)

  -- `stockStream`
  pub stock_stream : Item → State W → End × State W
  stock_stream item s =
      let (asset, revision) = chain.delivery s.world item.id in
      if not (chain.readable s.world item.id)
      then (threw, s)
      else if asset == 0 || revision == 0
      then (waits, s)
      else (
        is_ready (record {
          key = item.id;
          asset = asset;
          revision = revision;
          per_card = revision / p27;
          ready_at = (item.epoch + 1) * day;
        }),
        s,
      )

  -- What a stream's turn adds to `ready`: a covered stream is done once its protocol share is.
  abbrev pub collect : Item → (protocol_done : Bool) → End → State W → List Ready × State W
  collect item pd (is_ready r) s =
      if includes s.covered item.id
      then ([], if pd then patch_stream item.id (λ rec. record rec { is_done = true }) s else s)
      else (r ∷ [], s)
  collect item pd _ s = ([], s)

  -- The stream's own progress, by its kind.
  abbrev pub settle : Kind → Item → StreamRec → (protocol_done : Bool) → State W → End × State W
  settle stock_quoted item rec pd s = stock_stream item s
  settle usdc_quoted item rec pd s = usdc_stream chain p now item rec pd s

  -- The `try` block of a stream.
  pub attempt : Item → StreamRec → State W → List Ready × State W
  attempt item rec s =
      let (pd, shared) = protocol_share item s in
      let (end, after) = settle item.kind item rec pd shared in
      if not (chain.readable s.world item.id) then ([], s) else collect item pd end after

  -- A stream's turn in the loop.
  pub turn : Item → State W → List Ready × State W
  turn item s =
      let rec = stream_rec item.id s in
      let attempted = attempt item rec s in
      if rec.is_done
      then ([], s)
      else if ltb (item.epoch + p.lookback_days) (now / day)
      then ([], s)
      else if not (epoch_over now item.epoch)
      then ([], s)
      else attempted

  -- `streamsPhase`
  pub streams_phase : List Item → State W → List Ready × State W
  streams_phase [] s = ([], s)
  streams_phase (item ∷ items) s =
      let (here, after) = turn item s in
      let (later, end) = streams_phase items after in (here ++ later, end)
