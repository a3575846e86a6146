-- ===== src/Round/Sealing/Complete.antt =====
-- The watermark never hides an epoch that could be sealed.
use solonpad_contracts.Base.{
  Bool-cases, List, Option, [], arith, if◌then◌else◌, includes, inl, inr, ltb, ltb→lt, none,
  not_ltb→le, refl, some, subst, true, ℕ, ℕ_cases, ◌+◌, ◌<◌, ◌==◌, ◌∷◌, ◌≡◌, ◌≤◌, ◌⊎◌,
}
use solonpad_contracts.Base.Dict.{insert, lookup-insert_self}
use solonpad_contracts.Round.Batch.{is_sealable}
use solonpad_contracts.Round.Batch.Laws.{
  advance_watermark_final, sealable_epochs_iff, sealable_open,
}
use solonpad_contracts.Round.Sealing.{
  Chain, Op, Source, State, create_entry_source, epochs_of, from_of, is_final, mark_of, next_mark,
  seal, seal_epochs, seal_source, send,
}

module _ {W : Type 0} (chain : Chain W) (today lookback : ℕ) where
  -- The epochs of a source among the seals sent.
  abbrev seal_of : (source : ℕ) → Op → Option ℕ
  seal_of source (seal a e) = if a == source then some e else none
  seal_of source (create_entry_source l) = none

  abbrev add_seal : Option ℕ → List ℕ → List ℕ
  add_seal none es = es
  add_seal (some e) es = e ∷ es

  abbrev pub seals_in : (source : ℕ) → List (W × Op) → List ℕ
  seals_in source [] = []
  seals_in source ((w, op) ∷ ops) = add_seal (seal_of source op) (seals_in source ops)

  -- Below its watermark, a source has only epochs that are final, before its first or older than the lookback.
  unfoldable pub IsMarked : Source → State W → Type 0
  IsMarked src s =
      (e : ℕ)
      → e < mark_of chain today lookback src.address s
      → (is_final (chain.epoch_view s.world src.address e) ≡ true)
        ⊎ (e < src.first_epoch)
        ⊎ (e + lookback < today)

  seal_epochs_old :
      (source e : ℕ) (es : List ℕ) (s : State W)
      → includes (seals_in source s.sends) e ≡ true
      → includes (seals_in source (seal_epochs chain today lookback source es s).sends) e ≡ true
  unfolding seal_epochs send
  seal_epochs_old source e [] s h = h
  seal_epochs_old source e (x ∷ es) s h =
      seal_epochs_old source e es (send chain today lookback (seal source x) s).0 (ground arith)

  seal_epochs_new :
      (source e : ℕ) (es : List ℕ) (s : State W)
      → includes es e ≡ true
      → includes (seals_in source (seal_epochs chain today lookback source es s).sends) e ≡ true
  unfolding seal_epochs send
  seal_epochs_new source e [] s h = ground arith
  seal_epochs_new source e (x ∷ es) s h =
      let after = (send chain today lookback (seal source x) s).0 in
      elim (ℕ_cases x e) [
        | inl same ↦ seal_epochs_old source e es after (ground arith)
        | inr other ↦ seal_epochs_new source e es after (ground arith)
      ]

  above_mark :
      (src : Source) (s : State W) (e : ℕ)
      → IsMarked src s
      → src.first_epoch ≤ e
      → today ≤ e + lookback
      → is_sealable (some (chain.epoch_view s.world src.address e)) ≡ true
      → mark_of chain today lookback src.address s ≤ e
  unfolding IsMarked
  above_mark src s e marked first recent good =
      let mark = mark_of chain today lookback src.address s in
      elim (Bool-cases (ltb e mark)) [
        | inr high ↦ not_ltb→le _ _ high
        | inl hidden ↦
            let why = marked e (ltb→lt _ _ hidden) in
            let vital = sealable_open (chain.epoch_view s.world src.address e) good in
            absurd (ground arith)
      ]

  seal_epochs_world :
      (P : W → Type 0) (source : ℕ) (es : List ℕ) (s : State W)
      → ((w : W) (op : Op) → P w → P (chain.call w op).0)
      → P s.world
      → P (seal_epochs chain today lookback source es s).world
  unfolding seal_epochs send
  seal_epochs_world P source [] s keeps h = h
  seal_epochs_world P source (e ∷ es) s keeps h =
      seal_epochs_world P source es (send chain today lookback (seal source e) s).0 keeps
        (keeps s.world (seal source e) h)

  seal_epochs_marks :
      (source : ℕ) (es : List ℕ) (s : State W)
      → (seal_epochs chain today lookback source es s).marks ≡ s.marks
  unfolding seal_epochs send
  seal_epochs_marks source [] s = refl
  seal_epochs_marks source (e ∷ es) s =
      seal_epochs_marks source es (send chain today lookback (seal source e) s).0

  -- What a final epoch of a source is said to be: it stays final.
  abbrev pub StaysFinal : Source → Type 0
  StaysFinal src =
      (w : W) (op : Op) (e : ℕ)
      → is_final (chain.epoch_view w src.address e) ≡ true
      → is_final (chain.epoch_view (chain.call w op).0 src.address e) ≡ true

  next_mark_final :
      (src : Source) (s : State W) (e : ℕ)
      → IsMarked src s
      → e < next_mark chain today lookback src s
      → (is_final (chain.epoch_view s.world src.address e) ≡ true)
        ⊎ (e < src.first_epoch)
        ⊎ (e + lookback < today)
  unfolding next_mark IsMarked
  next_mark_final src s e marked below =
      let mark = mark_of chain today lookback src.address s in
      let from = from_of chain today lookback src.address src.first_epoch s in
      let (grows, final) =
        advance_watermark_final mark from today e
          (λ i. is_final (chain.epoch_view s.world src.address i)) in
      elim (Bool-cases (ltb e mark)) [
        | inl old ↦ marked e (ltb→lt _ _ old)
        | inr new ↦
            let high = not_ltb→le _ _ new in
            elim (Bool-cases (ltb e from)) [
              | inr inside ↦ inl (final high (not_ltb→le _ _ inside) below)
              | inl early ↦
                  let low = ltb→lt _ _ early in
                  elim (Bool-cases (ltb e src.first_epoch)) [
                    | inl before ↦ inr (inl (ltb→lt _ _ before))
                    | inr later ↦
                        let begun = not_ltb→le _ _ later in
                        inr (inr (omega (arith, low, high, begun)))
                  ]
            ]
      ]

  seal_source_mark :
      (src : Source) (s : State W)
      → mark_of chain today lookback src.address (seal_source chain today lookback src s)
        ≡ next_mark chain today lookback src s
  unfolding seal_source
  seal_source_mark src s =
      let mark = next_mark chain today lookback src s in
      let marked : State W = record s { marks = insert src.address mark s.marks } in
      let kept = seal_epochs_marks src.address (epochs_of chain today lookback src s) marked in
      let found = lookup-insert_self src.address mark s.marks in rw (kept, found) refl

  still_final :
      (src : Source) (s : State W) (e : ℕ)
      → StaysFinal src
      → is_final (chain.epoch_view s.world src.address e) ≡ true
      → is_final (chain.epoch_view (seal_source chain today lookback src s).world src.address e)
        ≡ true
  unfolding seal_source
  still_final src s e stays final =
      let mark = next_mark chain today lookback src s in
      seal_epochs_world (λ w. is_final (chain.epoch_view w src.address e) ≡ true) src.address
        (epochs_of chain today lookback src s)
        (record s { marks = insert src.address mark s.marks }) (λ w op h. stays w op e h) final

  -- A source's turn keeps its watermark true, on a chain where a final epoch stays final: what lies below it
  -- can never be sealed any more, or is outside the source's days.
  pub seal_source-IsMarked :
      (src : Source) (s : State W)
      → StaysFinal src
      → IsMarked src s
      → IsMarked src (seal_source chain today lookback src s)
  unfolding IsMarked
  seal_source-IsMarked src s stays marked e below =
      let here : e < next_mark chain today lookback src s =
        subst (λ m. e < m) (seal_source_mark src s) below in
      elim (next_mark_final src s e marked here) [
        | inl final ↦ inl (still_final src s e stays final)
        | inr outside ↦ inr outside
      ]

  -- With a watermark that hides only what can never be sealed, every past epoch of the source within the lookback that
  -- can be sealed is sealed in the source's turn; and, on a chain where a final epoch stays final, the turn leaves
  -- such a watermark again, so that the next turn misses nothing either.
  pub seal_source_complete :
      (src : Source) (s : State W) (e : ℕ)
      → StaysFinal src
      → IsMarked src s
      → src.first_epoch ≤ e
      → today ≤ e + lookback
      → e < today
      → is_sealable (some (chain.epoch_view s.world src.address e)) ≡ true
      → (includes (seals_in src.address (seal_source chain today lookback src s).sends) e ≡ true)
        × IsMarked src (seal_source chain today lookback src s)
  unfolding seal_source epochs_of
  seal_source_complete src s e stays marked first recent past good =
      let low : mark_of chain today lookback src.address s ≤ e =
        above_mark src s e marked first recent good in
      let listed =
        (sealable_epochs_iff today (from_of chain today lookback src.address src.first_epoch s)
            lookback (λ i. some (chain.epoch_view s.world src.address i)) e).1
          (omega arith, recent, past, good) in
      (
        seal_epochs_new src.address e (epochs_of chain today lookback src s)
            (record s { marks = insert src.address (next_mark chain today lookback src s) s.marks })
            listed,
        seal_source-IsMarked src s stays marked,
      )
