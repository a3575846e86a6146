-- ===== src/Vault/Scanned.antt =====
-- The scan of the vault's events reaches the head.
use solonpad_contracts.Base.{
  List, [], arith, if_lem, leb, leb→le, min, not_leb→lt, refl, suc, zero, ℕ, ◌*◌, ◌+◌, ◌-◌, ◌<◌,
  ◌==◌, ◌∙◌, ◌∷◌, ◌≡◌, ◌≤◌,
}
use solonpad_contracts.Vault.{
  Chain, Event, Params, State, executed, note_event, note_events, scan_chunks, waiting_funds,
}

module _ {W : Type 0} (chain : Chain W) (p : Params) (now : ℕ) where
  note_events_next : (es : List Event) (s : State W) → (note_events chain p now es s).next ≡ s.next
  unfolding note_events note_event
  note_events_next [] s = refl
  note_events_next (waiting_funds ref ∷ es) s =
      note_events_next es (note_event chain p now (waiting_funds ref) s)
  note_events_next (executed ref outcome ∷ es) s =
      let same : (note_event chain p now (executed ref outcome) s).next ≡ s.next =
        if_lem (λ (t : State W). t.next ≡ s.next) (outcome == 0) (λ bought. refl) (λ other. refl) in
      note_events_next es (note_event chain p now (executed ref outcome) s) ∙ same

  -- With chunks of at least one block, and fuel for as many chunks as the blocks left need, the scan ends with its
  -- cursor right behind the head; a cursor that is already there does not move.
  pub scan_chunks_reaches :
      (fuel head : ℕ) (s : State W)
      → 0 < p.scan_chunk
      → s.next ≤ head + 1
      → head + 1 ≤ s.next + fuel * p.scan_chunk
      → (scan_chunks chain p now fuel head s).next ≡ head + 1
  unfolding scan_chunks
  scan_chunks_reaches zero head s pos low enough = omega arith
  scan_chunks_reaches (suc n) head s pos low enough =
      let to = min head (s.next + p.scan_chunk - 1) in
      let noted = note_events chain p now (chain.logs s.next to) s in
      if_lem (λ (t : State W). t.next ≡ head + 1) (leb s.next head)
        (λ behind.
          let inside = leb→le _ _ behind in
          scan_chunks_reaches n head (record noted { next = to + 1 }) pos (omega arith)
            (omega (arith, enough, inside)))
        (λ there. let past = not_leb→lt _ _ there in omega (arith, past, low))
