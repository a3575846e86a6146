-- ===== src/Desk/Sweep/Uncovered.antt =====
-- What a pass over the streams hands to the queues.
use solonpad_contracts.Base.{
  All, Bool, Bool-cases, List, [], arith, false, includes, inl, inr, leb, leb→le, refl, subst, ℕ,
  ◌*◌, ◌++◌, ◌+◌, ◌∙◌, ◌∷◌, ◌≡◌, ◌≤◌,
}
use solonpad_contracts.Desk.Streams.{Kind, day, epoch_over, stock_quoted, usdc_quoted}
use solonpad_contracts.Desk.Ledger.{Chain, Item, State, StreamRec, send, stream_rec}
use solonpad_contracts.Desk.Walk.{End, Params, Ready, is_ready}
use solonpad_contracts.Desk.Walk.Kept.{Kept, usdc_stream-Kept}
use solonpad_contracts.Desk.Sweep.{
  attempt, collect, protocol_share, settle, stock_stream, streams_phase, turn,
}

module _ {W : Type 0} (chain : Chain W) (p : Params) (now : ℕ) where
  settle-Kept :
      (kind : Kind) (item : Item) (rec : StreamRec) (pd : Bool) (s : State W)
      → Kept chain p now item s.covered (settle chain p now kind item rec pd s)
  unfolding stock_stream
  settle-Kept usdc_quoted item rec pd s = usdc_stream-Kept chain p now item rec pd s
  settle-Kept stock_quoted item rec pd s = ground arith

  protocol_share_covered :
      (item : Item) (s : State W) → (protocol_share chain p now item s).1.covered ≡ s.covered
  unfolding protocol_share send
  protocol_share_covered item s = ground arith

  -- Ready for a queue: in none yet, and its day is over.
  abbrev pub IsFree : List ℕ → Ready → Type 0
  IsFree covered r = (includes covered r.key ≡ false) × (r.ready_at ≤ now)

  collect-IsFree :
      (item : Item) (pd : Bool) (end : End) (s : State W) (covered : List ℕ)
      → (item.epoch + 1) * day ≤ now
      → Kept chain p now item covered (end, s)
      → All (IsFree covered) (collect chain p now item pd end s).0
        × ((collect chain p now item pd end s).1.covered ≡ covered)
  collect-IsFree item pd (is_ready r) s covered over kept =
      elim (Bool-cases (includes s.covered item.id)) [
        | inl paid ↦ rw paid (ground arith)
        | inr free ↦ rw free (ground arith)
      ]
  collect-IsFree item pd _ s covered over kept = (tt, kept.1)

  attempt-IsFree :
      (item : Item) (rec : StreamRec) (s : State W)
      → (item.epoch + 1) * day ≤ now
      → All (IsFree s.covered) (attempt chain p now item rec s).0
        × ((attempt chain p now item rec s).1.covered ≡ s.covered)
  unfolding attempt
  attempt-IsFree item rec s over =
      let (pd, shared) = protocol_share chain p now item s in
      let same = protocol_share_covered item s in
      let out = settle chain p now item.kind item rec pd shared in
      let kept =
        subst (λ c. Kept chain p now item c out) same (settle-Kept item.kind item rec pd shared) in
      let got = collect-IsFree item pd out.0 out.1 s.covered over kept in
      elim (Bool-cases (chain.readable s.world item.id)) [
        | inl reads ↦ rw reads got
        | inr fails ↦ rw fails (tt, refl)
      ]

  turn-IsFree :
      (item : Item) (s : State W)
      → All (IsFree s.covered) (turn chain p now item s).0
        × ((turn chain p now item s).1.covered ≡ s.covered)
  unfolding turn epoch_over
  turn-IsFree item s = elim (Bool-cases (leb ((item.epoch + 1) * day) now)) [
    | inl over ↦
        let go = attempt-IsFree item (stream_rec item.id s) s (leb→le _ _ over) in
        rw over (ground arith)
    | inr early ↦ rw early (ground arith)
  ]

  All-append : (P : Ready → Type 0) (xs ys : List Ready) → All P xs → All P ys → All P (xs ++ ys)
  All-append P [] ys hx hy = hy
  All-append P (x ∷ xs) ys hx hy = (hx.0, All-append P xs ys hx.1 hy)

  -- Every stream that a pass hands on is in none of the queues serviced at its start, and its UTC day is over:
  -- no stream is put in a second queue, whatever the chain answers during the pass.
  pub streams_phase-IsFree :
      (items : List Item) (s : State W)
      → All (IsFree s.covered) (streams_phase chain p now items s).0
        × ((streams_phase chain p now items s).1.covered ≡ s.covered)
  unfolding streams_phase
  streams_phase-IsFree [] s = (tt, refl)
  streams_phase-IsFree (item ∷ items) s =
      let (here, same) = turn-IsFree item s in
      let after = (turn chain p now item s).1 in
      let (later, kept) = streams_phase-IsFree items after in
      (
        All-append (IsFree s.covered) (turn chain p now item s).0
            (streams_phase chain p now items after).0 here
            (subst (λ c. All (IsFree c) (streams_phase chain p now items after).0) same later),
        kept ∙ same,
      )
