-- ===== src/Desk/Opening/Sent.antt =====
-- Which queues the keeper opens.
use solonpad_contracts.Base.{
  All, Bool-cases, List, Option-cases, [], arith, false, inl, inr, map, or_else, refl, some, subst,
  suc, sym, true, zero, ℕ, ◌-◌, ◌<◌, ◌∙◌, ◌∷◌, ◌≡◌,
}
use solonpad_contracts.Base.Dict.{lookup}
use solonpad_contracts.Desk.Groups.{ReadyStream}
use solonpad_contracts.Desk.Groups.Packing.{times}
use solonpad_contracts.Desk.Ledger.{
  Chain, Content, Op, QueueRec, State, open_queue, patch_stream, send,
}
use solonpad_contracts.Desk.Walk.{Params, Ready}
use solonpad_contracts.Desk.Queues.{scan_queues}
use solonpad_contracts.Desk.Opening.{
  Group, adopt_group, adopted_rec, claim_queues, content_of, cover, find_content, give_up_dust,
  open_group, open_groups, open_new, open_phase, own_rec, patch_queue, plan_groups,
}
use solonpad_contracts.Desk.Opening.Grouped.{Reorders, count, count_opened, plan_groups_places}

-- Each key of the streams has what every key that occurs has.
All-keys :
    (Q : ℕ → Type 0) (streams : List ReadyStream)
    → ((k : ℕ) → 0 < times k streams → Q k)
    → All Q (map (λ r. r.key) streams)
All-keys Q [] h = tt
All-keys Q (r ∷ rs) h = (h r.key (ground arith), All-keys Q rs (λ k occurs. h k (ground arith)))

module _ {W : Type 0} (chain : Chain W) (fuel : ℕ) (known : List ℕ) (ready : List Ready) where
  -- A queue is opened with ready streams only, in a world that does not have it.
  abbrev pub IsNeeded : W × Op → Type 0
  IsNeeded (w, open_queue c) = All (λ k. 0 < count k ready) c.keys × (chain.is_queued w c ≡ false)
  IsNeeded (w, _) = Unit

  cover_sends : (queue : ℕ) (keys : List ℕ) (s : State W) → (cover queue keys s).sends ≡ s.sends
  unfolding cover
  cover_sends queue [] s = refl
  cover_sends queue (k ∷ ks) s = cover_sends queue ks (
      patch_stream k (λ r. record r { queue_id = some queue })
        (record s { covered = k ∷ s.covered }))

  claim_queues_sends :
      (c : Content) (n i : ℕ) (s : State W) → (claim_queues c n i s).sends ≡ s.sends
  unfolding claim_queues
  claim_queues_sends c zero i s = refl
  claim_queues_sends c (suc n) i s = elim (Option-cases (lookup i s.queues)) [
    | inl missing ↦ rw (missing, claim_queues) (claim_queues_sends c n (suc i) s)
    | inr (rec, found) ↦
        let mine = cover i rec.content.keys (patch_queue i own_rec s) in
        let claimed = claim_queues_sends c n (suc i) mine in
        let passed = claim_queues_sends c n (suc i) s in
        let covered = cover_sends i rec.content.keys (patch_queue i own_rec s) in ground arith
  ]

  patch_queue_sends :
      (id : ℕ) (patch : QueueRec → QueueRec) (s : State W)
      → (patch_queue id patch s).sends ≡ s.sends
  patch_queue_sends id patch s = ground arith

  adopt_group_sends :
      (c : Content) (s : State W) → (adopt_group chain fuel known c s).sends ≡ s.sends
  unfolding adopt_group
  adopt_group_sends c s = elim (Option-cases (find_content c s.queues)) [
    | inl missing ↦ rw (missing, adopt_group) refl
    | inr (id, found) ↦
        rw (found, adopt_group)
          (cover_sends id c.keys (patch_queue id adopted_rec s)
            ∙ patch_queue_sends id adopted_rec s)
  ]

  give_up_dust_sends :
      (dust : List ReadyStream) (s : State W) → (give_up_dust dust s).sends ≡ s.sends
  unfolding give_up_dust
  give_up_dust_sends [] s = refl
  give_up_dust_sends (d ∷ ds) s =
      give_up_dust_sends ds (patch_stream d.key (λ r. record r { is_done = true; dust = true }) s)

  open_new_sends :
      (c : Content) (s : State W)
      → (open_new chain fuel known c s).sends ≡ (s.world, open_queue c) ∷ s.sends
  unfolding open_new send scan_queues
  open_new_sends c s =
      let (after, confirmed) = send chain (open_queue c) s in
      let scanned = scan_queues chain fuel known after in
      let claimed =
        claim_queues_sends c (scanned.next_queue - after.next_queue) after.next_queue scanned in
      elim (Bool-cases (chain.call s.world (open_queue c)).1) [
        | inl confirmed_now ↦ rw confirmed_now claimed
        | inr missed ↦ rw missed refl
      ]

  open_group-IsNeeded :
      (c : Content) (s : State W)
      → All (λ k. 0 < count k ready) c.keys
      → All IsNeeded s.sends
      → All IsNeeded (open_group chain fuel known c s).sends
  unfolding open_group
  open_group-IsNeeded c s keys a = elim (Bool-cases (chain.is_queued s.world c)) [
    | inl queued ↦ rw (queued, adopt_group_sends c s) a
    | inr missing ↦ rw (missing, open_new_sends c s) ((keys, missing), a)
  ]

  open_groups-IsNeeded :
      (gs : List Group) (s : State W)
      → ((k : ℕ) → 0 < count_opened k gs → 0 < count k ready)
      → All IsNeeded s.sends
      → All IsNeeded (open_groups chain fuel known ready gs s).sends
  unfolding open_groups
  open_groups-IsNeeded [] s held a = a
  open_groups-IsNeeded (g ∷ gs) s held a =
      let c = content_of ready g in
      let keys : All (λ k. 0 < count k ready) c.keys =
        All-keys (λ k. 0 < count k ready) g.streams (λ k h. held k (omega arith)) in
      let later : (k : ℕ) → 0 < count_opened k gs → 0 < count k ready =
        λ k h. held k (omega arith) in
      open_groups-IsNeeded gs (open_group chain fuel known c s) later
        (open_group-IsNeeded c s keys a)

  -- The keeper opens a queue only in a world that has no queue of that content, and only with streams that
  -- are ready.
  pub open_phase-IsNeeded :
      (sort : List Ready → List Ready) (p : Params) (s : State W)
      → Reorders sort
      → All IsNeeded s.sends
      → All IsNeeded (open_phase chain fuel known sort p ready s).sends
  unfolding open_phase
  open_phase-IsNeeded sort p s reorders a =
      let price : ℕ → ℕ = λ a. or_else (chain.price s.world a) 0 in
      let minimum = chain.minimum s.world in
      let plan = plan_groups sort price minimum p.max_keys_per_queue p.margin_bps ready in
      open_groups-IsNeeded plan.opened (give_up_dust plan.dust s)
        (λ k h.
          let total =
            plan_groups_places sort price minimum p.max_keys_per_queue p.margin_bps reorders k
              ready in
          omega (arith, total, h))
        (subst (All IsNeeded) (sym (give_up_dust_sends plan.dust s)) a)
