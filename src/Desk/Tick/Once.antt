-- ===== src/Desk/Tick/Once.antt =====
-- A stream goes into one queue.
use solonpad_contracts.Base.Dict.{Dict, lookup}
use solonpad_contracts.Desk.Queues.Adopted.{covered_by_lem, is_paid_by, scanned-is_paid_by}
use solonpad_contracts.Desk.Tick.{ids}
use solonpad_contracts.Desk.Opening.{open_phase}
use solonpad_contracts.Desk.Sweep.{streams_phase}
use solonpad_contracts.Desk.Queues.{covered_by, scan_queues}
use solonpad_contracts.Base.{
  All, Bool-cases, List, [], arith, false, includes, includes_or, inl, inr, some, subst, sym, true,
  ℕ, ℕ_cases, ◌<◌, ◌∙◌, ◌∷◌, ◌≡◌, ◌≢◌,
}
use solonpad_contracts.Desk.Ledger.{
  Chain, Item, Op, QueueRec, State, batch, entry_source, forward_protocol, fund_protocol,
  open_queue, seal_entry, sync_purchased,
}
use solonpad_contracts.Desk.Walk.{Params, Ready}
use solonpad_contracts.Desk.Sweep.Uncovered.{IsFree, streams_phase-IsFree}
use solonpad_contracts.Desk.Opening.Grouped.{Reorders, count}
use solonpad_contracts.Desk.Opening.Sent.{IsNeeded, open_phase-IsNeeded}
use solonpad_contracts.Desk.Service.{Feed}

false-true : false ≢ true
false-true = ground arith

module _ {W : Type 0} (chain : Chain W) (feed : Feed W) (p : Params)
    (sort : List Ready → List Ready) (fuel now : ℕ) where
  -- A queue opened for streams none of which is in `covered`, in a world that has no such queue.
  abbrev pub IsNew : (covered : List ℕ) → W × Op → Type 0
  IsNew covered (w, open_queue c) =
      All (λ k. includes covered k ≡ false) c.keys × (chain.is_queued w c ≡ false)
  IsNew covered (w, _) = Unit

  free_key :
      (covered : List ℕ) (ready : List Ready) (k : ℕ)
      → All (IsFree chain p now covered) ready
      → 0 < count k ready
      → includes covered k ≡ false
  free_key covered [] k free held = absurd (omega arith)
  free_key covered (r ∷ rs) k free held = elim (ℕ_cases r.key k) [
    | inl same ↦ subst (λ i. includes covered i ≡ false) same free.0.0
    | inr other ↦ free_key covered rs k free.1 (ground arith)
  ]

  free_keys :
      (covered : List ℕ) (ready : List Ready) (ks : List ℕ)
      → All (IsFree chain p now covered) ready
      → All (λ k. 0 < count k ready) ks
      → All (λ k. includes covered k ≡ false) ks
  free_keys covered ready [] free held = tt
  free_keys covered ready (k ∷ ks) free held =
      (free_key covered ready k free held.0, free_keys covered ready ks free held.1)

  op-IsNew :
      (covered : List ℕ) (ready : List Ready) (known : List ℕ) (w : W) (op : Op)
      → All (IsFree chain p now covered) ready
      → IsNeeded chain fuel known ready (w, op)
      → IsNew covered (w, op)
  op-IsNew covered ready known w (open_queue c) free needed =
      (free_keys covered ready c.keys free needed.0, needed.1)
  op-IsNew covered ready known w (entry_source k) free needed = tt
  op-IsNew covered ready known w (seal_entry k) free needed = tt
  op-IsNew covered ready known w (sync_purchased k d e) free needed = tt
  op-IsNew covered ready known w (fund_protocol k c) free needed = tt
  op-IsNew covered ready known w (forward_protocol k c) free needed = tt
  op-IsNew covered ready known w (batch q n s c l) free needed = tt

  sends-IsNew :
      (covered : List ℕ) (ready : List Ready) (known : List ℕ) (sends : List (W × Op))
      → All (IsFree chain p now covered) ready
      → All (IsNeeded chain fuel known ready) sends
      → All (IsNew covered) sends
  sends-IsNew covered ready known [] free needed = tt
  sends-IsNew covered ready known ((w, op) ∷ sends) free needed = (
    op-IsNew covered ready known w op free needed.0,
    sends-IsNew covered ready known sends free needed.1,
  )

  -- A queue opened for streams that no serviced queue of the journal pays, in a world that has no such queue.
  abbrev pub IsFirst : (queues : Dict QueueRec) (keys : List ℕ) → W × Op → Type 0
  IsFirst queues keys (w, open_queue c) =
      All (λ k. (is_paid_by queues k ≡ false) × (includes keys k ≡ false)) c.keys
      × (chain.is_queued w c ≡ false)
  IsFirst queues keys (w, _) = Unit

  not_in :
      (keys : List ℕ) (queues : Dict QueueRec) (k : ℕ)
      → ((i : ℕ) → includes keys i ≡ true → is_paid_by queues i ≡ true)
      → is_paid_by queues k ≡ false
      → includes keys k ≡ false
  not_in keys queues k paid free = elim (Bool-cases (includes keys k)) [
    | inl inside ↦ absurd (false-true (sym free ∙ paid k inside))
    | inr out ↦ out
  ]

  keys-IsFirst :
      (queues : Dict QueueRec) (keys ks : List ℕ)
      → ((i : ℕ) → includes keys i ≡ true → is_paid_by queues i ≡ true)
      → All (λ k. includes (covered_by queues) k ≡ false) ks
      → All (λ k. (is_paid_by queues k ≡ false) × (includes keys k ≡ false)) ks
  keys-IsFirst queues keys [] paid free = tt
  keys-IsFirst queues keys (k ∷ ks) paid free =
      let unpaid : is_paid_by queues k ≡ false = sym (covered_by_lem queues k) ∙ free.0 in
      ((unpaid, not_in keys queues k paid unpaid), keys-IsFirst queues keys ks paid free.1)

  op-IsFirst :
      (queues : Dict QueueRec) (keys : List ℕ) (w : W) (op : Op)
      → ((i : ℕ) → includes keys i ≡ true → is_paid_by queues i ≡ true)
      → IsNew (covered_by queues) (w, op)
      → IsFirst queues keys (w, op)
  op-IsFirst queues keys w (open_queue c) paid new =
      (keys-IsFirst queues keys c.keys paid new.0, new.1)
  op-IsFirst queues keys w (entry_source k) paid new = tt
  op-IsFirst queues keys w (seal_entry k) paid new = tt
  op-IsFirst queues keys w (sync_purchased k d e) paid new = tt
  op-IsFirst queues keys w (fund_protocol k c) paid new = tt
  op-IsFirst queues keys w (forward_protocol k c) paid new = tt
  op-IsFirst queues keys w (batch q n s c l) paid new = tt

  sends-IsFirst :
      (queues : Dict QueueRec) (keys : List ℕ) (sends : List (W × Op))
      → ((i : ℕ) → includes keys i ≡ true → is_paid_by queues i ≡ true)
      → All (IsNew (covered_by queues)) sends
      → All (IsFirst queues keys) sends
  sends-IsFirst queues keys [] paid new = tt
  sends-IsFirst queues keys ((w, op) ∷ sends) paid new =
      (op-IsFirst queues keys w op paid new.0, sends-IsFirst queues keys sends paid new.1)

  -- A queue that the journal lists as serviced, below the cursor of the scan, has the stream.
  abbrev pub IsListed : State W → (key : ℕ) → Type 0
  IsListed s key =
      (id : ℕ) × (rec : QueueRec) × (id < s.next_queue)
      × (lookup id s.queues ≡ some rec)
      × (rec.serviced ≡ some true)
      × (includes rec.content.keys key ≡ true)

  IsListed-at :
      (s : State W) (keys : List ℕ) (key : ℕ)
      → All (IsListed s) keys
      → includes keys key ≡ true
      → IsListed s key
  IsListed-at s [] key h inside = absurd (ground arith)
  IsListed-at s (k ∷ ks) key h inside = elim (includes_or k key ks inside) [
    | inl same ↦ subst (IsListed s) (sym same) h.0
    | inr later ↦ IsListed-at s ks key h.1 later
  ]

  listed-is_paid_by :
      (known : List ℕ) (s : State W) (key : ℕ)
      → IsListed s key
      → is_paid_by (scan_queues chain fuel known s).queues key ≡ true
  unfolding scan_queues
  listed-is_paid_by known s key (id, rec, low, found, served, inside) =
      scanned-is_paid_by chain s.world fuel known s.next_queue id key rec s.queues low found served
        inside

  -- A stream goes into one queue: in a tick, whatever the chain answers, a queue is opened only for streams that no
  -- serviced queue of the scanned journal pays, none of them a stream of a queue that the journal listed as
  -- serviced before the tick (`keys`); and only where the chain has no such queue. The calls counted are
  -- those of the opening, with a sort that only reorders.
  pub open_tick-IsNew :
      (items : List Item) (s : State W) (keys : List ℕ)
      → Reorders sort
      → All (IsListed s) keys
      → let scanned = scan_queues chain fuel (ids items) s in
        let (ready, swept) = streams_phase chain p now items scanned in
        All
          (IsFirst scanned.queues keys)
          (open_phase chain fuel (ids items) sort p ready (record swept { sends = [] })).sends
  unfolding scan_queues
  open_tick-IsNew items s keys reorders listed =
      let scanned = scan_queues chain fuel (ids items) s in
      let out = streams_phase chain p now items scanned in
      let swept : State W = record out.1 { sends = [] } in
      let opened = open_phase chain fuel (ids items) sort p out.0 swept in
      sends-IsFirst scanned.queues keys opened.sends
        (λ key inside. listed-is_paid_by (ids items) s key (IsListed-at s keys key listed inside))
        (sends-IsNew scanned.covered out.0 (ids items) opened.sends
          (streams_phase-IsFree chain p now items scanned).0
          (open_phase-IsNeeded chain fuel (ids items) out.0 sort p swept reorders tt))
