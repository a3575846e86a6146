-- ===== src/Desk/Queues/Adopted.antt =====
-- What a scan of the payout queues leaves behind.
use solonpad_contracts.Base.{
  Bool, List, Option, Option-cases, [], arith, false, if◌then◌else◌, includes, inl, inr, none, refl,
  some, subst, suc, true, zero, ℕ, ℕ_cases, ◌&&◌, ◌++◌, ◌+◌, ◌<◌, ◌||◌, ◌∙◌, ◌∷◌, ◌≡◌, ◌≢◌, ◌≤◌,
}
use solonpad_contracts.Base.Dict.{Dict, insert, lookup, lookup-insert_ne, lookup-insert_self}
use solonpad_contracts.Desk.Ledger.{Chain, QueueRec, QueueView}
use solonpad_contracts.Desk.Queues.{
  covered_by, every_known, is_at, is_serviced, judge_queue, judge_queues, queue_rec, queue_worth,
  read_queues,
}

-- Some serviced queue pays the stream.
abbrev pub is_paid_by : Dict QueueRec → (key : ℕ) → Bool
is_paid_by [] key = false
is_paid_by ((id, rec) ∷ queues) key =
    let rest = is_paid_by queues key in
    if is_serviced rec && includes rec.content.keys key then true else rest

includes-append :
    (xs ys : List ℕ) (k : ℕ) → includes (xs ++ ys) k ≡ (includes xs k || includes ys k)
includes-append [] ys k = ground arith
includes-append (x ∷ xs) ys k = ground (arith, includes-append xs ys k)

pub covered_by_lem :
    (queues : Dict QueueRec) (key : ℕ) → includes (covered_by queues) key ≡ is_paid_by queues key
unfolding covered_by
covered_by_lem [] key = refl
covered_by_lem ((id, rec) ∷ queues) key =
    ground
      (arith, covered_by_lem queues key, includes-append rec.content.keys (covered_by queues) key)

module _ {W : Type 0} (chain : Chain W) (w : W) where
  read_queues_stops :
      (fuel i bound : ℕ) (queues : Dict QueueRec)
      → chain.queue w bound ≡ none
      → i ≤ bound
      → bound < i + fuel
      → chain.queue w (read_queues chain fuel w i queues).0 ≡ none
  unfolding read_queues
  read_queues_stops zero i bound queues stop le lt = absurd (omega (arith, le, lt))
  read_queues_stops (suc fuel) i bound queues stop le lt = elim (Option-cases (chain.queue w i)) [
    | inl missing ↦ rw (missing, read_queues) missing
    | inr (q, found) ↦
        let further : i ≢ bound = λ e. cc (found, stop, e) in
        rw (found, read_queues)
          (read_queues_stops fuel (suc i) bound (insert i (queue_rec q (lookup i queues)) queues)
            stop (omega arith) (omega arith))
  ]

  read_queues_grows :
      (fuel i : ℕ) (queues : Dict QueueRec) → i ≤ (read_queues chain fuel w i queues).0
  unfolding read_queues
  read_queues_grows zero i queues = omega arith
  read_queues_grows (suc fuel) i queues = elim (Option-cases (chain.queue w i)) [
    | inl missing ↦ rw (missing, read_queues) (omega arith)
    | inr (q, found) ↦
        let more =
          read_queues_grows fuel (suc i) (insert i (queue_rec q (lookup i queues)) queues) in
        rw (found, read_queues) (omega (arith, more))
  ]

  -- An index below the cursor is not touched.
  read_queues_below :
      (fuel i j : ℕ) (queues : Dict QueueRec)
      → j < i
      → lookup j (read_queues chain fuel w i queues).1 ≡ lookup j queues
  unfolding read_queues
  read_queues_below zero i j queues lt = refl
  read_queues_below (suc fuel) i j queues lt = elim (Option-cases (chain.queue w i)) [
    | inl missing ↦ rw (missing, read_queues) refl
    | inr (q, found) ↦
        let new = queue_rec q (lookup i queues) in
        rw (found, read_queues)
          (read_queues_below fuel (suc i) j (insert i new queues) (omega arith)
            ∙ lookup-insert_ne j i new queues (omega arith))
  ]

  -- A record that holds what the chain says of a queue.
  abbrev pub Holds : Option QueueRec → Option QueueView → Type 0
  Holds (some rec) (some q) = (rec.content ≡ q.content) × (rec.upper_bound ≡ q.upper_bound)
  Holds _ _ = true ≡ false

  queue_rec-Holds : (q : QueueView) (o : Option QueueRec) → Holds (some (queue_rec q o)) (some q)
  unfolding queue_rec
  queue_rec-Holds q none = (refl, refl)
  queue_rec-Holds q (some rec) = (refl, refl)

  read_on :
      (fuel i : ℕ) (queues : Dict QueueRec) {q : QueueView}
      → chain.queue w i ≡ some q
      → read_queues chain (suc fuel) w i queues
        ≡ read_queues chain fuel w (suc i) (insert i (queue_rec q (lookup i queues)) queues)
  unfolding read_queues
  read_on fuel i queues found = rw (found, read_queues) refl

  read_no_more :
      (fuel i : ℕ) (queues : Dict QueueRec)
      → chain.queue w i ≡ none
      → (read_queues chain (suc fuel) w i queues).0 ≡ i
  unfolding read_queues
  read_no_more fuel i queues missing = rw (missing, read_queues) refl

  read_queues_reads :
      (fuel i j : ℕ) (queues : Dict QueueRec)
      → i ≤ j
      → j < (read_queues chain fuel w i queues).0
      → Holds (lookup j (read_queues chain fuel w i queues).1) (chain.queue w j)
  unfolding read_queues
  read_queues_reads zero i j queues le lt = absurd (omega arith)
  read_queues_reads (suc fuel) i j queues le lt = elim (Option-cases (chain.queue w i)) [
    | inl missing ↦
        let ends = read_no_more fuel i queues missing in absurd (omega (arith, ends, lt, le))
    | inr (q, found) ↦
        let step = read_on fuel i queues found in
        let new = queue_rec q (lookup i queues) in
        elim (ℕ_cases j i) [
          | inl same ↦
              let kept : lookup i (read_queues chain fuel w (suc i) (insert i new queues)).1
                  ≡ some new =
                read_queues_below fuel (suc i) i (insert i new queues) (omega arith)
                ∙ lookup-insert_self i new queues in
              rw (same, step, kept, found) (queue_rec-Holds q (lookup i queues))
          | inr later ↦ rw step (
              read_queues_reads fuel (suc i) j (insert i new queues) (omega arith)
                (subst (λ out. j < out.0) step lt))
        ]
  ]

  is_paid_by-judge :
      (known : List ℕ) (queues : Dict QueueRec) (key : ℕ)
      → is_paid_by queues key ≡ true
      → is_paid_by (judge_queues chain known w queues) key ≡ true
  unfolding judge_queues judge_queue
  is_paid_by-judge known [] key h = h
  is_paid_by-judge known ((id, rec) ∷ queues) key h =
      ground (arith, is_paid_by-judge known queues key)

  -- A queue that the keeper had not judged is serviced only if each of its streams is known and one card's
  -- claims on them together are worth the minimum; it counts as done if the cursor already stood at the end.
  pub judge_queue_lem :
      (known : List ℕ) (rec : QueueRec)
      → rec.serviced ≡ none
      → (judge_queue chain known w rec).serviced ≡ some true
      → (every_known known rec.content.keys ≡ true)
        × (queue_worth chain w rec ≡ some true)
        × ((judge_queue chain known w rec).pass.is_done
            ≡ (rec.pass.is_done || is_at rec.adopted_cursor rec.upper_bound))
  unfolding judge_queue
  judge_queue_lem known rec unjudged serviced = ground arith

  -- A record that was judged before the scan comes out of it as it was, when its index is below the cursor.
  judge_queues-lookup :
      (known : List ℕ) (id : ℕ) (rec : QueueRec) (queues : Dict QueueRec)
      → lookup id queues ≡ some rec
      → rec.serviced ≡ some true
      → lookup id (judge_queues chain known w queues) ≡ some rec
  unfolding judge_queues judge_queue
  judge_queues-lookup known id rec [] found served = found
  judge_queues-lookup known id rec ((i, r) ∷ queues) found served =
      let rest = judge_queues-lookup known id rec queues in ground (arith, rest)

  lookup-is_paid_by :
      (id key : ℕ) (rec : QueueRec) (queues : Dict QueueRec)
      → lookup id queues ≡ some rec
      → rec.serviced ≡ some true
      → includes rec.content.keys key ≡ true
      → is_paid_by queues key ≡ true
  lookup-is_paid_by id key rec [] found served has = absurd (ground arith)
  lookup-is_paid_by id key rec ((i, r) ∷ queues) found served has =
      let rest = lookup-is_paid_by id key rec queues in ground (arith, rest)

  -- A stream of a queue that the journal lists as serviced, below the cursor of the scan, is paid by a serviced
  -- queue after the scan.
  pub scanned-is_paid_by :
      (fuel : ℕ) (known : List ℕ) (next id key : ℕ) (rec : QueueRec) (queues : Dict QueueRec)
      → id < next
      → lookup id queues ≡ some rec
      → rec.serviced ≡ some true
      → includes rec.content.keys key ≡ true
      → is_paid_by (judge_queues chain known w (read_queues chain fuel w next queues).1) key ≡ true
  scanned-is_paid_by fuel known next id key rec queues low found served has =
      let read = (read_queues chain fuel w next queues).1 in
      let kept : lookup id read ≡ some rec = read_queues_below fuel next id queues low ∙ found in
      lookup-is_paid_by id key rec (judge_queues chain known w read)
        (judge_queues-lookup known id rec read kept served) served has
